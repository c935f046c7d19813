-- ===== src/Config.antt =====
-- config.go, `readConfig`: a section of the configuration file, and the handler and the pool that it
-- leads to. The increment of an address is a parameter.
pub mod Interfaces
pub mod Sections
pub mod Start
use standalone_dhcp.Prelude.{
  ℕ, zero, suc, ◌+◌, ◌*◌, Bool, true, false, not, ◌&&◌, ◌||◌, Option, none, some, String, List, [],
  ◌∷◌, ◌++◌, ◌==◌, nat_eq, ltb, leb, if◌then◌else◌, length,
}
use standalone_dhcp.Prelude.Int.{ℤ, pos}
use standalone_dhcp.Prelude.Map.{Map, insert}
use standalone_dhcp.Net.{IpAddr, IpNet, contains, to4, bytes_equal}
use standalone_dhcp.Convert.{Bytes, parse_ip, split, atoi}
use standalone_dhcp.Shuffle.{shuffle_dns, shuffle_gateway}
use standalone_dhcp.Utils.{safe_int_to_uint64}
use standalone_dhcp.Pool.{DhcpPool, new_dhcp_pool}
use standalone_dhcp.Texts.{text_bytes}
use standalone_dhcp.Static.{ips_from_range, exclude_ips, assign_ips}
use standalone_dhcp.Static.Assignments.{assigned_pairs}
use standalone_dhcp.Ini.{Ini}
use standalone_dhcp.Dhcp.{Lib}
use standalone_dhcp.Handler.{Handler, be_uint32, ip_string}
use standalone_dhcp.Serve.{Network, Interface}
use Prim.Native.Char.{Char, code}

-- `net.Interface` as the program uses it: the addresses are those of `Addrs`, parsed.
pub record Device : Type 0 where
  pub name : String
  pub addresses : List (IpAddr × IpNet)

-- What the reading needs besides the file: the devices, `sharedutils.Inc`, the rounds that the loop of
-- a range may have, the clock, and a seed for the shuffles.
pub record Setting : Type 0 where
  pub by_name : Bytes → Option Device
  pub inc : IpAddr → IpAddr
  pub fuel : ℕ
  pub now : ℕ → ℕ
  pub seed : ℕ

module _ (lib : Lib) (env : Setting) where
  open lib use {dhcp4, ints, texts, sql, world}

  abbrev pub address_of : (String → Bytes) → String → IpAddr
  address_of sec key = parse_ip world.parse_ipv6 (sec key)

  -- Whether a section is for a network of an interface.
  unfoldable pub is_wanted : IpNet → (String → Bytes) → Bool
  is_wanted net sec =
      (contains net (address_of sec "dhcp_start") && contains net (address_of sec "dhcp_end"))
      || contains net (address_of sec "next_hop")

  -- The pool of a new handler, with `ExcludeIP` and `AssignIP`; `none` is a panic, or a range
  -- without an end.
  unfoldable pub read_pool : (String → Bytes) → Option (DhcpPool × Map String ℕ)
  read_pool sec =
      let first = address_of sec "dhcp_start" in
      let size = dhcp4.ip_range first (address_of sec "dhcp_end") in
      let pool = new_dhcp_pool env.now (safe_int_to_uint64 size) (atoi (sec "algorithm")) in
      elim (ips_from_range world.parse_ipv6 env.inc env.fuel (sec "ip_reserved")) [
        | none ↦ none
        | some ips ↦ elim (exclude_ips first ips pool) [
          | none ↦ none
          | some pool' ↦
              assign_ips first (assigned_pairs world.parse_ipv6 (sec "ip_assigned")) pool' []
        ]
      ]

  unfoldable pub read_options : (String → Bytes) → Map ℕ Bytes
  read_options sec = insert 15 (sec "domain-name") (
      insert 3 (shuffle_gateway world.parse_ipv6 sec) (
        insert 6
          (shuffle_dns world.parse_ipv6 (world.draw env.seed (length (split b',' (sec "dns")))) sec)
          (insert 1 (to4 (address_of sec "netmask")) [])))

  -- The handler on a pool. Times are in seconds.
  unfoldable pub new_handler : IpAddr → (String → Bytes) → DhcpPool → Map String ℕ → Handler lib
  new_handler ip sec pool assigned = record {
    ip = to4 ip;
    options = read_options sec;
    start = address_of sec "dhcp_start";
    lease_range = dhcp4.ip_range (address_of sec "dhcp_start") (address_of sec "dhcp_end");
    lease_duration = atoi (sec "dhcp_default_lease_time");
    hwcache = ints.new (atoi (sec "dhcp_default_lease_time")) (pos 10);
    xid = ints.new (pos 4) (pos 2);
    available = pool;
    layer2 = true;
    role = "none";
    ip_reserved = sec "ip_reserved";
    ip_assigned = assigned;
  }

  abbrev pub new_network :
      IpAddr
      → Bytes
      → (String → Bytes)
      → Option (DhcpPool × Map String ℕ)
      → Option (Option (Network lib))
  new_network ip name sec none = none
  new_network ip name sec (some (pool, assigned)) = some (
      some (record {
        network = record { ip = parse_ip world.parse_ipv6 name; mask = address_of sec "netmask" };
        dhcp_handler = new_handler ip sec pool assigned;
        timers = [];
      }))

  -- The first address of the range after the last one, on addresses of four bytes.
  unfoldable pub is_backward : (String → Bytes) → Option Bool
  is_backward sec = elim (be_uint32 (to4 (address_of sec "dhcp_start"))) [
    | none ↦ none
    | some first ↦ elim (be_uint32 (to4 (address_of sec "dhcp_end"))) [
      | none ↦ none
      | some last ↦ some (ltb last first)
    ]
  ]

  -- One section `network …`, for an address of an interface and its network: `some none` is a
  -- `continue`.
  unfoldable pub read_network :
      IpAddr → IpNet → Bytes → (String → Bytes) → Option (Option (Network lib))
  read_network ip net name sec =
      if bytes_equal (sec "dhcpd") (text_bytes "disabled")
      then some none
      else if not (is_wanted net sec)
      then some none
      else if length (to4 (address_of sec "dhcp_start")) == 0
          || length (to4 (address_of sec "dhcp_end")) == 0
      then some none
      else elim (is_backward sec) [
        | none ↦ none
        | some true ↦ some none
        | some false ↦ new_network ip name sec (read_pool sec)
      ]
