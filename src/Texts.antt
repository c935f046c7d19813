-- ===== src/Texts.antt =====
-- config.go and utils.go: texts of the configuration, masks, and the version of an address.
use standalone_dhcp.Prelude.{
  ◌/◌, ◌%◌, ℕ, suc, ◌+◌, ◌*◌, Bool, true, ◌&&◌, Option, none, some, String, List, [], ◌∷◌, ◌==◌,
  nat_eq, ltb, leb, if◌then◌else◌, length,
}
use standalone_dhcp.Prelude.Int.{ℤ, pos, negsuc}
use standalone_dhcp.Net.{IpAddr, IpNet, to4, fit_mask, or_address}
use standalone_dhcp.Convert.{Bytes}
use standalone_dhcp.Handler.{ip_string, decimal_text, hex_byte}
use Prim.Native.String.{◌++◌}
use Prim.Native.Char.{code}

-- The bytes of a text of ASCII.
unfoldable pub text_bytes : String → Bytes
text_bytes String.[] = []
text_bytes (String.◌∷◌ c s) = code c ∷ text_bytes s

-- `strings.TrimPrefix` after `strings.HasPrefix`; the expression `^network (?P<Net>.*)$` matches the
-- same texts, as long as they have no line break.
unfoldable pub strip_prefix : Bytes → Bytes → Option Bytes
strip_prefix [] s = some s
strip_prefix (p ∷ ps) [] = none
strip_prefix (p ∷ ps) (c ∷ cs) = if p == c then strip_prefix ps cs else none

unfoldable pub network_name : Bytes → Option Bytes
unfolding strip_prefix text_bytes
network_name key = strip_prefix (text_bytes "network ") key

-- The number of ones at the front of a byte, if zeros follow.
byte_ones : ℕ → Option ℕ
byte_ones b =
    if b == 255
    then some 8
    else if b == 254
    then some 7
    else if b == 252
    then some 6
    else if b == 248
    then some 5
    else if b == 240
    then some 4
    else if b == 224
    then some 3
    else if b == 192
    then some 2
    else if b == 128
    then some 1
    else if b == 0
    then some 0
    else none

abbrev all_zero : List ℕ → Bool
all_zero [] = true
all_zero (b ∷ rest) = b == 0 && all_zero rest

abbrev plus : ℕ → Option ℕ → Option ℕ
plus n none = none
plus n (some m) = some (n + m)

unfoldable pub mask_ones : List ℕ → Option ℕ
unfolding byte_ones
mask_ones [] = some 0
mask_ones (b ∷ rest) =
    let later = plus 8 (mask_ones rest) in
    if b == 255 then later else if all_zero rest then byte_ones b else none

-- `Mask.Size`: the ones and the width, or twice 0 for what is no mask.
unfoldable pub mask_size : List ℕ → ℕ × ℕ
mask_size m = elim (mask_ones m) [ none ↦ (0, 0) | some n ↦ (n, 8 * length m) ]

-- `strings.Count(s, ":")`.
unfoldable pub colons : String → ℕ
colons String.[] = 0
colons (String.◌∷◌ c s) = if code c == b':' then suc (colons s) else colons s

unfoldable pub is_ipv4 : (IpAddr → String) → IpAddr → Bool
is_ipv4 long address = ltb (colons (ip_string long address)) 2

unfoldable pub is_ipv6 : (IpAddr → String) → IpAddr → Bool
is_ipv6 long address = leb 2 (colons (ip_string long address))

-- `Itoa`, of an `int` of at most twenty digits.
abbrev pub int_text : ℤ → String
int_text (pos n) = decimal_text 20 n
int_text (negsuc n) = "-" ++ decimal_text 20 (suc n)

-- `IPMask.String`, of a mask that is no prefix.
unfoldable pub mask_text : List ℕ → String
mask_text [] = ""
mask_text (b ∷ rest) = hex_byte b ++ mask_text rest

abbrev length_or_text : List ℕ → Option ℕ → String
length_or_text m none = mask_text m
length_or_text m (some n) = decimal_text 3 n

-- `IPNet.String`.
unfoldable pub net_string : (IpAddr → String) → IpNet → String
net_string long n =
    let number = or_address n.ip (to4 n.ip) in
    elim (fit_mask number n.mask) [
      | none ↦ "<nil>"
      | some m ↦ ip_string long number ++ ("/" ++ length_or_text m (mask_ones m))
    ]

-- `Duration.String`, of a number of seconds that is not negative.
unfoldable pub duration_text : ℕ → String
duration_text n =
    let seconds = decimal_text 2 (n % 60) ++ "s" in
    let minutes = decimal_text 2 (n / 60 % 60) ++ ("m" ++ seconds) in
    if ltb n 60
    then seconds
    else if ltb n 3600
    then minutes
    else decimal_text 20 (n / 3600) ++ ("h" ++ minutes)

abbrev pub lease_text : ℤ → String
lease_text (pos n) = duration_text n
lease_text (negsuc n) = "-" ++ duration_text (suc n)
