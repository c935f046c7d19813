-- ===== src/Api/Leases.antt =====
-- api.go and utils.go: the handlers that show a lease and that release one, and
-- `InterfaceScopeFromMac`.
pub mod Released
pub mod Shown
use standalone_dhcp.Prelude.{
  ℕ, Bool, Option, none, some, String, List, [], ◌∷◌, ◌==◌, string_eq, if◌then◌else◌,
}
use standalone_dhcp.Prelude.Int.{ℤ, pos}
use standalone_dhcp.Net.{IpAddr, contains}
use standalone_dhcp.Convert.{parse_ip}
use standalone_dhcp.Texts.{text_bytes, net_string}
use standalone_dhcp.Dhcp.{Lib}
use standalone_dhcp.Handler.{Handler}
use standalone_dhcp.Serve.{Network}
use standalone_dhcp.Config.Interfaces.{EthIf}

-- `Node`; a time is a number of nanoseconds.
pub record Node : Type 0 where
  pub mac : String
  pub ip : String
  pub ends_at : ℤ

-- `Info`.
pub record Info : Type 0 where
  pub status : String
  pub mac : String
  pub network : String

-- What is written: an error with its status, or the data of a success.
pub data LeaseReply : Type 0 where
  refused : ℕ → LeaseReply
  node : Node → LeaseReply
  info : Info → LeaseReply

module _ (lib : Lib) where
  open lib use {ints, texts, world}

  -- What the handlers on leases read and write: the interfaces with their networks, and the caches
  -- of the process by IP address and by hardware address.
  pub record Daemon : Type 0 where
    pub ints_net : List (EthIf lib)
    pub ips : texts.Cache
    pub macs : texts.Cache

  unfoldable pub handle_ip2mac : String → Daemon → LeaseReply
  handle_ip2mac ip d = elim (texts.get_with_expiration d.ips ip) [
    | none ↦ refused 404
    | some (index, expires_at) ↦ node (record { mac = index; ip = ip; ends_at = expires_at })
  ]

  unfoldable pub handle_mac2ip : String → Daemon → LeaseReply
  handle_mac2ip mac d = elim (texts.get_with_expiration d.macs mac) [
    | none ↦ refused 404
    | some (index, expires_at) ↦ node (record { mac = mac; ip = index; ends_at = expires_at })
  ]

  abbrev or_unchanged : ints.Cache → Option ints.Cache → ints.Cache
  or_unchanged c none = c
  or_unchanged c (some c') = c'

  -- The entry of a client, if there is one, runs out after three seconds.
  abbrev pub shorten : String → Handler lib → Option ℤ → Handler lib
  shorten mac h none = h
  shorten mac h (some x) = record h {
    hwcache = or_unchanged h.hwcache (ints.replace h.hwcache mac x (pos 3));
  }

  -- One network: `found` is the text that the loop has so far.
  unfoldable pub scope_network : String → IpAddr → String → Network lib → String × Network lib
  scope_network mac ip found v =
      if contains v.network ip
      then (
        net_string world.long_string v.network,
        record v {
          dhcp_handler = shorten mac v.dhcp_handler (ints.get v.dhcp_handler.hwcache mac);
        },
      )
      else (found, v)

  unfoldable pub scope_networks :
      String → IpAddr → String → List (Network lib) → String × List (Network lib)
  scope_networks mac ip found [] = (found, [])
  scope_networks mac ip found (v ∷ rest) =
      let (found', v') = scope_network mac ip found v in
      let (last, rest') = scope_networks mac ip found' rest in (last, v' ∷ rest')

  unfoldable pub scope_interfaces :
      String → IpAddr → String → List (EthIf lib) → String × List (EthIf lib)
  scope_interfaces mac ip found [] = (found, [])
  scope_interfaces mac ip found (e ∷ rest) =
      let (found', networks) = scope_networks mac ip found e.network in
      let (last, rest') = scope_interfaces mac ip found' rest in
      (last, record e { network = networks } ∷ rest')

  -- The text of the last network with the address of the client, or the empty text.
  unfoldable pub interface_scope_from_mac : String → Daemon → String × Daemon
  interface_scope_from_mac mac d = elim (texts.get d.macs mac) [
    | none ↦ ("", d)
    | some index ↦
        let (network, interfaces) =
          scope_interfaces mac (parse_ip world.parse_ipv6 (text_bytes index)) "" d.ints_net in
        (network, record d { ints_net = interfaces })
  ]

  unfoldable pub handle_release_ip : String → Daemon → LeaseReply × Daemon
  handle_release_ip mac d =
      let (network, d') = interface_scope_from_mac mac d in
      (
        if network == ""
            then refused 404
            else info (record { status = "ACK"; mac = mac; network = network }),
        d',
      )
