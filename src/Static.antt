-- ===== src/Static.antt =====
-- utils.go and config.go: the addresses that the configuration keeps out of the pool, by ranges
-- (`IPsFromRange`, `ExcludeIP`) and for single clients (`AssignIP`). `inc` is `sharedutils.Inc`.
pub mod Ranges
pub mod Kept
pub mod Both
pub mod Assignments
use standalone_dhcp.Prelude.{
  ℕ, zero, suc, Bool, true, false, Option, none, some, String, List, [], ◌∷◌, ◌++◌, ◌==◌, nat_eq,
  string_eq, if◌then◌else◌, length,
}
use standalone_dhcp.Prelude.Map.{Map, insert}
use standalone_dhcp.Net.{IpAddr, to4, ipv4, ip_equal}
use standalone_dhcp.Convert.{Bytes, parse_ip, split}
use standalone_dhcp.Pool.{DhcpPool, reserve_ip_index, fake_mac}
use standalone_dhcp.Handler.{be_uint32}
use standalone_dhcp.Discover.{sub_uint32}

-- `net.ParseIP(ip.String())`, on what `ParseIP` answers: nil, or sixteen bytes.
abbrev long_form : IpAddr → IpAddr → IpAddr
long_form ip (a ∷ b ∷ c ∷ d ∷ []) = ipv4 a b c d
long_form ip _ = ip

unfoldable pub reread : IpAddr → IpAddr
reread ip = long_form ip (to4 ip)

-- The loop over one range, with fuel.
unfoldable pub range_from : (IpAddr → IpAddr) → ℕ → IpAddr → IpAddr → Option (List IpAddr)
range_from inc zero start end = none
range_from inc (suc fuel) start end =
    let rest = range_from inc fuel (inc start) end in
    if ip_equal start end
    then some (reread start ∷ [])
    else elim rest [ none ↦ none | some ips ↦ some (reread start ∷ ips) ]

-- One part of the text: an address, or a first and a last one.
unfoldable pub range_of :
    (Bytes → IpAddr) → (IpAddr → IpAddr) → ℕ → List Bytes → Option (List IpAddr)
range_of parse_ipv6 inc fuel [] = some []
range_of parse_ipv6 inc fuel (a ∷ []) = some (parse_ip parse_ipv6 a ∷ [])
range_of parse_ipv6 inc fuel (a ∷ b ∷ rest) =
    range_from inc fuel (parse_ip parse_ipv6 a) (parse_ip parse_ipv6 b)

unfoldable pub ranges_of :
    (Bytes → IpAddr) → (IpAddr → IpAddr) → ℕ → List Bytes → Option (List IpAddr)
ranges_of parse_ipv6 inc fuel [] = some []
ranges_of parse_ipv6 inc fuel (part ∷ parts) =
    elim (range_of parse_ipv6 inc fuel (split b'-' part)) [
      | none ↦ none
      | some ips ↦ elim (ranges_of parse_ipv6 inc fuel parts) [
        | none ↦ none
        | some more ↦ some (ips ++ more)
      ]
    ]

-- `IPsFromRange`; the second result is the length of the list.
unfoldable pub ips_from_range :
    (Bytes → IpAddr) → (IpAddr → IpAddr) → ℕ → Bytes → Option (List IpAddr)
ips_from_range parse_ipv6 inc fuel text = ranges_of parse_ipv6 inc fuel (split b',' text)

-- The place of an address in the pool, in `uint32`; `none` is a panic on an address that is no IPv4.
unfoldable pub position_of : IpAddr → IpAddr → Option ℕ
position_of start ip = elim (be_uint32 (to4 ip)) [
  | none ↦ none
  | some wanted ↦ elim (be_uint32 (to4 start)) [
    | none ↦ none
    | some first ↦ some (sub_uint32 wanted first)
  ]
]

-- The loop of `ExcludeIP`; nil addresses are passed over.
unfoldable pub exclude_ips : IpAddr → List IpAddr → DhcpPool → Option DhcpPool
exclude_ips start [] pool = some pool
exclude_ips start ([] ∷ ips) pool = exclude_ips start ips pool
exclude_ips start ((b ∷ bs) ∷ ips) pool = elim (position_of start (b ∷ bs)) [
  | none ↦ none
  | some position ↦ exclude_ips start ips (reserve_ip_index position fake_mac pool).0
]

-- `AssignIP`, from the pairs of a hardware address and an IP address that the expression finds.
unfoldable pub assign_ips :
    IpAddr → List (String × IpAddr) → DhcpPool → Map String ℕ → Option (DhcpPool × Map String ℕ)
assign_ips start [] pool couple = some (pool, couple)
assign_ips start ((mac, ip) ∷ rest) pool couple = elim (position_of start ip) [
  | none ↦ none
  | some position ↦
      assign_ips start rest (reserve_ip_index position mac pool).0 (insert mac position couple)
]
