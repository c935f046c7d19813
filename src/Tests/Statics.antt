-- ===== src/Tests/Statics.antt =====
-- Excluded and assigned addresses at concrete inputs.
use standalone_dhcp.Prelude.{
  ℕ, zero, suc, ◌+◌, ◌<◌, ◌≡◌, refl, ap, false, none, some, String, List, [], ◌∷◌, length, arith,
  nat_eq, string_eq,
}
use standalone_dhcp.Prelude.Map.{Map, lookup, insert}
use standalone_dhcp.Net.{IpAddr, ipv4, to4, ip_equal}
use standalone_dhcp.Handler.{be_uint32}
use standalone_dhcp.Pool.{DhcpPool, reserve_ip_index}
use standalone_dhcp.Static.{range_from, exclude_ips, assign_ips, position_of}
use standalone_dhcp.Static.Ranges.{after, members, range_from-members, range_from_endless}
use standalone_dhcp.Pool.Invariant.{IsValid}
use standalone_dhcp.Static.Kept.{
  AllTaken, StaticTaken, exclude_ips-AllTaken, assign_ips-StaticTaken,
}
use standalone_dhcp.Tests.Pools.{four, four-IsValid}

-- An increment of the last byte.
abbrev pub inc_last : List ℕ → List ℕ
inc_last [] = []
inc_last (a ∷ []) = (a + 1) ∷ []
inc_last (a ∷ b ∷ rest) = a ∷ inc_last (b ∷ rest)

length-inc_last : (ip : List ℕ) → length (inc_last ip) ≡ length ip
length-inc_last [] = refl
length-inc_last (a ∷ []) = refl
length-inc_last (a ∷ b ∷ rest) = ap suc (length-inc_last (b ∷ rest))

abbrev first : IpAddr
first = ipv4 192 0 2 10

-- 192.0.2.10 to 192.0.2.12.
apart : (k : ℕ) → k < 2 → ip_equal (after inc_last k first) (after inc_last 2 first) ≡ false
unfolding ip_equal ipv4
apart zero h = refl
apart (suc zero) h = refl
apart (suc (suc k)) h = absurd (omega (arith, h))

range_from-members_example :
    range_from inc_last 3 first (after inc_last 2 first) ≡ some (members inc_last 2 first)
range_from-members_example = range_from-members inc_last 2 first apart

length-first : 0 < length first
unfolding ipv4
length-first = omega arith

range_from_endless_example : range_from inc_last 9 first [] ≡ none
range_from_endless_example = range_from_endless inc_last 9 first length-inc_last length-first

-- The addresses of index 1 and of index 3; the second argument is nil.
abbrev excluded : List IpAddr
excluded = ipv4 192 0 2 11 ∷ [] ∷ ipv4 192 0 2 13 ∷ []

abbrev left : DhcpPool
left = (reserve_ip_index 3 "ff:ff:ff:ff:ff:ff" (reserve_ip_index 1 "ff:ff:ff:ff:ff:ff" four).0).0

exclusion : exclude_ips first excluded four ≡ some left
unfolding exclude_ips position_of be_uint32 to4 ipv4
exclusion = refl

exclude_ips-AllTaken_example : AllTaken first excluded left × IsValid left
exclude_ips-AllTaken_example = exclude_ips-AllTaken first excluded four left four-IsValid exclusion

abbrev pairs : List (String × IpAddr)
pairs = ("02:00:00:00:00:01", ipv4 192 0 2 12) ∷ []

abbrev given : DhcpPool
given = (reserve_ip_index 2 "02:00:00:00:00:01" four).0

abbrev no_static : Map String ℕ
no_static = []

assignment : assign_ips first pairs four no_static ≡ some (given, ("02:00:00:00:00:01", 2) ∷ [])
unfolding assign_ips position_of be_uint32 to4 ipv4 insert
assignment = refl

none_yet : StaticTaken no_static four
unfolding lookup
none_yet mac i h = absurd (ground (arith, h))

assign_ips-StaticTaken_example : StaticTaken (("02:00:00:00:00:01", 2) ∷ []) given × IsValid given
assign_ips-StaticTaken_example =
    assign_ips-StaticTaken first pairs four given no_static (("02:00:00:00:00:01", 2) ∷ [])
      four-IsValid none_yet assignment
