-- ===== src/Config/Interfaces.antt =====
-- config.go, `readConfig`: the loops over the interfaces, their addresses and the sections, and the
-- relays. The devices of the system are a parameter.
use standalone_dhcp.Prelude.{
  ℕ, Option, none, some, List, [], ◌∷◌, ◌++◌, ◌==◌, nat_eq, if◌then◌else◌, length,
}
use standalone_dhcp.Net.{IpAddr, IpNet}
use standalone_dhcp.Convert.{Bytes, parse_ip, split}
use standalone_dhcp.Texts.{text_bytes, network_name, mask_size, is_ipv4, is_ipv6}
use standalone_dhcp.Ini.{Ini}
use standalone_dhcp.Dhcp.{Lib}
use standalone_dhcp.Serve.{Network, Interface}
use standalone_dhcp.Config.{Setting, Device, read_network}

module _ (lib : Lib) where
  -- `Interface` with all fields.
  pub record EthIf : Type 0 where
    pub interface : Interface lib
    pub ipv6 : IpAddr
    pub layer2 : List IpNet
    pub network : List (Network lib)
    pub listen_port : ℕ

module _ (lib : Lib) (env : Setting) (ini : Ini) (cfg : ini.File) where
  open lib use {world}

  abbrev pub join_found :
      Option (Option (Network lib)) → Option (List (Network lib)) → Option (List (Network lib))
  join_found none rest = none
  join_found (some found) none = none
  join_found (some none) (some rest) = some rest
  join_found (some (some v)) (some rest) = some (v ∷ rest)

  abbrev pub read_section : IpAddr → IpNet → Bytes → Option Bytes → Option (Option (Network lib))
  read_section ip net key none = some none
  read_section ip net key (some name) = read_network lib env ip net name (ini.value cfg key)

  -- The loop over the sections.
  unfoldable pub read_sections : IpAddr → IpNet → List Bytes → Option (List (Network lib))
  read_sections ip net [] = some []
  read_sections ip net (key ∷ keys) =
      join_found (read_section ip net key (network_name key)) (read_sections ip net keys)

  -- An IPv4 address of an interface, with the networks of its sections.
  unfoldable pub with_address : IpAddr → IpNet → List (Network lib) → EthIf lib → EthIf lib
  with_address ip net found e = record e {
    interface = record e.interface {
      ipv4 = if is_ipv4 world.long_string ip then ip else e.interface.ipv4;
    };
    layer2 = e.layer2 ++ net ∷ [];
    network = e.network ++ found;
  }

  -- The loop over the addresses of an interface: a network of one address is passed over.
  unfoldable pub read_addresses : List (IpAddr × IpNet) → EthIf lib → Option (EthIf lib)
  read_addresses [] e = some e
  read_addresses ((ip, net) ∷ rest) e =
      let (a, b) = mask_size net.mask in
      let skipped = read_addresses rest e in
      let noted = read_addresses rest (record e { ipv6 = ip }) in
      if a == b
      then skipped
      else if is_ipv6 world.long_string ip
      then noted
      else elim (read_sections ip net (ini.section_strings cfg)) [
        | none ↦ none
        | some found ↦ read_addresses rest (with_address ip net found e)
      ]

  abbrev pub server_if : Device → EthIf lib
  server_if eth = record {
    interface = record { name = eth.name; ipv4 = []; interface_type = "server"; relay_ip = [] };
    ipv6 = [];
    layer2 = [];
    network = [];
    listen_port = 67;
  }

  abbrev pub if_any : Option (EthIf lib) → Option (List (EthIf lib)) → Option (List (EthIf lib))
  if_any none rest = none
  if_any (some e) none = none
  if_any (some e) (some rest) = if length e.network == 0 then some rest else some (e ∷ rest)

  -- The loop over the interfaces of `listen`; one that is not there is passed over.
  unfoldable pub read_interfaces : List Bytes → Option (List (EthIf lib))
  read_interfaces [] = some []
  read_interfaces (v ∷ rest) = elim (env.by_name v) [
    | none ↦ read_interfaces rest
    | some eth ↦ if_any (read_addresses eth.addresses (server_if eth)) (read_interfaces rest)
  ]

  abbrev pub relay_if : Device → EthIf lib
  relay_if eth = record {
    interface = record { name = eth.name; ipv4 = []; interface_type = "relay"; relay_ip = [] };
    ipv6 = [];
    layer2 = [];
    network = [];
    listen_port = 68;
  }

  -- The loop over the addresses of a relay.
  unfoldable pub relay_addresses : Bytes → List (IpAddr × IpNet) → EthIf lib → EthIf lib
  relay_addresses target [] e = e
  relay_addresses target ((ip, net) ∷ rest) e = relay_addresses target rest (
      if is_ipv6 world.long_string ip then record e { ipv6 = ip } else record e {
        interface = record e.interface {
          ipv4 = if is_ipv4 world.long_string ip then ip else e.interface.ipv4;
          relay_ip = parse_ip world.parse_ipv6 target;
        };
        layer2 = e.layer2 ++ net ∷ [];
      })

  -- One part of `relay`: the name of an interface and the address of a server.
  unfoldable pub read_relay : List Bytes → List (EthIf lib)
  read_relay (name ∷ target ∷ more) = elim (env.by_name name) [
    | none ↦ []
    | some eth ↦ relay_addresses target eth.addresses (relay_if eth) ∷ []
  ]
  read_relay _ = []

  unfoldable pub read_relays : List Bytes → List (EthIf lib)
  read_relays [] = []
  read_relays (part ∷ parts) =
      if length part == 0
      then read_relays parts
      else read_relay (split b':' part) ++ read_relays parts

  -- `readConfig` on a file that loads.
  unfoldable pub read_config : Option (List (EthIf lib))
  read_config =
      let section = text_bytes "interfaces" in
      elim (read_interfaces (split b',' (ini.value cfg section "listen"))) [
        | none ↦ none
        | some served ↦ some (served ++ read_relays (split b',' (ini.value cfg section "relay")))
      ]
