-- ===== src/Convert.antt =====
-- database.go, `ConvertOptionToDHCP`: the value of an option override as the bytes of a DHCP option.
-- Texts are lists of bytes. `parse_ipv6` is what `net.ParseIP` does of a text with a colon before
-- any dot; the rest of `net`, `strconv` and `hex` that the function uses is written out.
pub mod Bounds
use standalone_dhcp.Prelude.{
  ℕ, zero, suc, ◌+◌, ◌-◌, ◌*◌, ◌/◌, ◌%◌, ◌^◌, Bool, true, false, not, ◌&&◌, ◌||◌, Option, none,
  some, String, List, [], ◌∷◌, ◌++◌, ◌==◌, nat_eq, string_eq, ltb, leb, if◌then◌else◌, length,
}
use standalone_dhcp.Prelude.Int.{ℤ, pos, negsuc, sub_ℕ}
use standalone_dhcp.Net.{IpAddr, ipv4, to4, put_uint16}

abbrev pub Bytes : Type 0
Bytes = List ℕ

pub record DhcpOption : Type 0 where
  pub option_code : ℤ
  pub option_value : Bytes
  pub option_type : String

-- The conversion of an `int` to the byte `dhcp.OptionCode`.
unfoldable pub to_option_code : ℤ → ℕ
to_option_code (pos n) = n % 256
to_option_code (negsuc n) = 255 - n % 256

abbrev pub is_digit : ℕ → Bool
is_digit c = leb b'0' c && leb c b'9'

-- The state of the loop that reads an IPv4 address: the fields so far, the last first, the
-- value of the field and its number of digits.
pub record V4State : Type 0 where
  pub fields : List ℕ
  pub val : ℕ
  pub dig_len : ℕ

-- One character. A field has no leading zero and is at most 255; it is not empty, and four are
-- the limit. (The checks on a dot at the start and on two dots are that a field has digits.)
unfoldable pub v4_char : V4State → ℕ → Option V4State
v4_char s c =
    if is_digit c
    then (if s.dig_len == 1 && s.val == 0
        then none
        else if ltb 255 (s.val * 10 + (c - b'0'))
        then none
        else some (record s { val = s.val * 10 + (c - b'0'); dig_len = s.dig_len + 1 }))
    else if c == b'.'
    then (if s.dig_len == 0 || length s.fields == 3
        then none
        else some (record { fields = s.val ∷ s.fields; val = 0; dig_len = 0 }))
    else none

unfoldable pub v4_chars : V4State → Bytes → Option V4State
v4_chars s [] = some s
v4_chars s (c ∷ cs) = elim (v4_char s c) [ none ↦ none | some s' ↦ v4_chars s' cs ]

-- The end of the text: three fields are complete, and the last one has digits.
unfoldable pub v4_end : V4State → IpAddr
v4_end s = if s.dig_len == 0 then [] else fields s.fields
  where
    fields : List ℕ → IpAddr
    fields (c ∷ b ∷ a ∷ []) = ipv4 a b c s.val
    fields _ = []

abbrev or_nil : Option V4State → IpAddr
or_nil none = []
or_nil (some s) = v4_end s

unfoldable pub parse_ipv4 : Bytes → IpAddr
parse_ipv4 s = or_nil (v4_chars (record { fields = []; val = 0; dig_len = 0 }) s)

-- The first dot or colon decides the kind; a text with neither is no address.
unfoldable pub parse_by : (Bytes → IpAddr) → Bytes → Bytes → IpAddr
parse_by parse_ipv6 whole [] = []
parse_by parse_ipv6 whole (c ∷ cs) =
    if c == b'.'
    then parse_ipv4 whole
    else if c == b':'
    then parse_ipv6 whole
    else parse_by parse_ipv6 whole cs

-- `net.ParseIP`: nil for what is no address.
unfoldable pub parse_ip : (Bytes → IpAddr) → Bytes → IpAddr
parse_ip parse_ipv6 s = parse_by parse_ipv6 s s

-- `strings.Split` at a separator of one byte.
unfoldable pub split : ℕ → Bytes → List Bytes
split sep [] = [] ∷ []
split sep (c ∷ cs) = if c == sep then [] ∷ split sep cs else onto c (split sep cs)
  where
    onto : ℕ → List Bytes → List Bytes
    onto c [] = (c ∷ []) ∷ []
    onto c (field ∷ rest) = (c ∷ field) ∷ rest

abbrev is_space : ℕ → Bool
is_space c = c == 32 || leb 9 c && leb c 13

unfoldable pub trim_left : Bytes → Bytes
trim_left [] = []
trim_left (c ∷ cs) = if is_space c then trim_left cs else c ∷ cs

unfoldable pub trim_right : Bytes → Bytes
trim_right [] = []
trim_right (c ∷ cs) = keep c (trim_right cs)
  where
    keep : ℕ → Bytes → Bytes
    keep c [] = if is_space c then [] else c ∷ []
    keep c (d ∷ ds) = c ∷ d ∷ ds

-- `strings.TrimSpace`, for the spaces of ASCII.
unfoldable pub trim_space : Bytes → Bytes
trim_space s = trim_right (trim_left s)

unfoldable pub digits_value : ℕ → ℕ → Bytes → Option ℕ
digits_value limit acc [] = some acc
digits_value limit acc (c ∷ cs) =
    if is_digit c && ltb (acc * 10 + (c - b'0')) limit
    then digits_value limit (acc * 10 + (c - b'0')) cs
    else none

-- `strconv.ParseUint(s, 10, bits)`: digits alone, one at least, and a value below `2 ^ bits`.
unfoldable pub parse_uint : ℕ → Bytes → Option ℕ
parse_uint bits [] = none
parse_uint bits (c ∷ cs) = digits_value (2 ^ bits) 0 (c ∷ cs)

unfoldable pub put_uint32 : ℕ → Bytes
put_uint32 x = (x / 2 ^ 24 % 2 ^ 8) ∷ (x / 2 ^ 16 % 2 ^ 8) ∷ (x / 2 ^ 8 % 2 ^ 8) ∷ (x % 2 ^ 8) ∷ []

-- The digits of `strconv.ParseUint(s, 10, 64)`, whose result on a number that is too large is the
-- largest one, whatever stands behind.
unfoldable pub uint_digits : ℕ → Bytes → Option ℕ
uint_digits acc [] = some acc
uint_digits acc (c ∷ cs) =
    if is_digit c
    then (if ltb (acc * 10 + (c - b'0')) (2 ^ 64)
        then uint_digits (acc * 10 + (c - b'0')) cs
        else some (2 ^ 64 - 1))
    else none

abbrev magnitude : Bytes → Option ℕ
magnitude [] = none
magnitude (c ∷ cs) = uint_digits 0 (c ∷ cs)

abbrev positive : Option ℕ → ℤ
positive none = pos 0
positive (some n) = pos (if ltb n (2 ^ 63) then n else 2 ^ 63 - 1)

abbrev negative : Option ℕ → ℤ
negative none = pos 0
negative (some n) = sub_ℕ 0 (if ltb (2 ^ 63) n then 2 ^ 63 else n)

-- `n, _ := strconv.Atoi(s)`: 0 for what is no number, the nearest `int` for what is out of range.
unfoldable pub atoi : Bytes → ℤ
atoi [] = pos 0
atoi (c ∷ cs) =
    if c == b'-'
    then negative (magnitude cs)
    else if c == b'+'
    then positive (magnitude cs)
    else positive (uint_digits 0 (c ∷ cs))

-- The replacer of the hexadecimal case: `0x`, `0X`, and the separators are left out.
unfoldable pub clean_hex : Bytes → Bytes
clean_hex [] = []
clean_hex (c ∷ []) = if c == b':' || (c == b'-' || c == b' ') then [] else c ∷ []
clean_hex (c ∷ d ∷ cs) =
    if c == b'0' && (d == b'x' || d == b'X')
    then clean_hex cs
    else if c == b':' || (c == b'-' || c == b' ')
    then clean_hex (d ∷ cs)
    else c ∷ clean_hex (d ∷ cs)

unfoldable pub hex_digit : ℕ → Option ℕ
hex_digit c =
    if is_digit c
    then some (c - b'0')
    else if leb b'a' c && leb c b'f'
    then some (c - b'a' + 10)
    else if leb b'A' c && leb c b'F'
    then some (c - b'A' + 10)
    else none

-- `hex.DecodeString`: two digits to a byte, an odd one is an error.
unfoldable pub decode_hex : Bytes → Option Bytes
decode_hex [] = some []
decode_hex (c ∷ []) = none
decode_hex (c ∷ d ∷ cs) = elim (hex_digit c) [
  | none ↦ none
  | some hi ↦ elim (hex_digit d) [
    | none ↦ none
    | some lo ↦ elim (decode_hex cs) [ none ↦ none | some rest ↦ some ((hi * 16 + lo) ∷ rest) ]
  ]
]

-- The short form of a parsed address, if it is one of IPv4.
unfoldable pub v4_bytes : IpAddr → Option Bytes
v4_bytes ip = if length (to4 ip) == 0 then none else some (to4 ip)

-- The loop over a list of addresses.
unfoldable pub v4_list : (Bytes → IpAddr) → List Bytes → Option Bytes
v4_list parse_ipv6 [] = some []
v4_list parse_ipv6 (s ∷ rest) = elim (v4_bytes (parse_ip parse_ipv6 (trim_space s))) [
  | none ↦ none
  | some ip4 ↦ elim (v4_list parse_ipv6 rest) [ none ↦ none | some more ↦ some (ip4 ++ more) ]
]

abbrev with_code : ℕ → Option Bytes → Option (ℕ × Bytes)
with_code code none = none
with_code code (some bytes) = some (code, bytes)

abbrev pub map_bytes : (ℕ → Bytes) → Option ℕ → Option Bytes
map_bytes f none = none
map_bytes f (some n) = some (f n)

-- The switch on the type of the option.
unfoldable pub option_bytes : (Bytes → IpAddr) → String → Bytes → Option Bytes
option_bytes parse_ipv6 type value =
    if type == "ip"
    then v4_bytes (parse_ip parse_ipv6 value)
    else if type == "ips"
    then v4_list parse_ipv6 (split b',' value)
    else if type == "string"
    then some value
    else if type == "uint32"
    then map_bytes put_uint32 (parse_uint 32 value)
    else if type == "uint16"
    then map_bytes put_uint16 (parse_uint 16 value)
    else if type == "uint8"
    then map_bytes (λ n. n ∷ []) (parse_uint 8 value)
    else if type == "hex"
    then decode_hex (clean_hex value)
    else none

-- `none` is an error of any kind; the callers only log it.
unfoldable pub convert_option_to_dhcp : (Bytes → IpAddr) → DhcpOption → Option (ℕ × Bytes)
convert_option_to_dhcp parse_ipv6 option =
    with_code (to_option_code option.option_code)
      (option_bytes parse_ipv6 option.option_type option.option_value)
