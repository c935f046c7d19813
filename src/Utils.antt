-- ===== src/Utils.antt =====
-- utils.go: conversions between integer types, and the server identifier.
use standalone_dhcp.Prelude.{ℕ, ◌-◌, ◌^◌, ◌≤◌, ◌≡◌, ◌||◌, if◌then◌else◌, ltb, arith}
use standalone_dhcp.Prelude.Int.{ℤ, pos, negsuc, ltb_ℤ}
use standalone_dhcp.Net.{IpAddr, ip_equal, ipv4_zero, ipv4_bcast}

-- `math.MaxInt` on 64 bits.
abbrev pub max_int : ℕ
max_int = 2 ^ 63 - 1

unfoldable pub safe_uint64_to_int : ℕ → ℤ
safe_uint64_to_int val = if ltb max_int val then pos max_int else pos val

abbrev non_negative : ℤ → ℕ
non_negative (pos n) = n
non_negative (negsuc n) = 0

unfoldable pub safe_int_to_uint64 : ℤ → ℕ
safe_int_to_uint64 val = if ltb_ℤ val (pos 0) then 0 else non_negative val

abbrev pub safe_uint32_to_uint64 : ℕ → ℕ
safe_uint32_to_uint64 val = val

-- An unsigned number that an `int` can hold survives the way through `int` and back.
pub safe_int_to_uint64-safe_uint64_to_int :
    (n : ℕ) → n ≤ max_int → safe_int_to_uint64 (safe_uint64_to_int n) ≡ n
unfolding safe_int_to_uint64 safe_uint64_to_int
safe_int_to_uint64-safe_uint64_to_int n h = ground arith

unfoldable pub set_option_server_identifier : IpAddr → IpAddr → IpAddr
set_option_server_identifier srvIP handlerIP =
    if ip_equal srvIP handlerIP || (ip_equal srvIP ipv4_zero || ip_equal srvIP ipv4_bcast)
    then handlerIP
    else srvIP
