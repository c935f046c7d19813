-- ===== src/Static/Assignments.antt =====
-- config.go, `AssignIP`: the pairs of a hardware address and an IP address in the text of the
-- configuration. The regular expression is written out as the matcher that it stands for: the first
-- place at which it matches, and there the longest runs of digits that lead to a match. Texts are of
-- ASCII, where `.` is any byte but a line break.
use standalone_dhcp.Prelude.{
  ℕ, zero, suc, ◌≡◌, refl, Bool, true, false, ◌&&◌, Option, none, some, String, List, [], ◌∷◌, ◌++◌,
  ◌==◌, nat_eq, if◌then◌else◌, length, is_some, ltb, arith,
}
use standalone_dhcp.Net.{IpAddr}
use standalone_dhcp.Convert.{Bytes, hex_digit, is_digit, parse_ip, split}
use Prim.Native.Char.{Char, char, IsScalar}

abbrev first_of {ℓ} : {A : Type ℓ} → Option A → Option A → Option A
first_of none b = b
first_of (some a) b = some a

abbrev before_rest : Bytes → Option (Bytes × Bytes) → Option (Bytes × Bytes)
before_rest front none = none
before_rest front (some (s, rest)) = some (front ++ s, rest)

-- `(?:[0-9A-Fa-f]{2}:){n}[0-9A-Fa-f]{2}` at the start of a text, with what follows.
unfoldable pub match_mac : ℕ → Bytes → Option (Bytes × Bytes)
match_mac zero (a ∷ b ∷ rest) =
    if is_some (hex_digit a) && is_some (hex_digit b) then some (a ∷ b ∷ [], rest) else none
match_mac (suc n) (a ∷ b ∷ c ∷ rest) =
    let later = before_rest (a ∷ b ∷ c ∷ []) (match_mac n rest) in
    if is_some (hex_digit a) && (is_some (hex_digit b) && c == b':') then later else none
match_mac _ _ = none

-- `[0-9]{k}`.
unfoldable pub match_digits : ℕ → Bytes → Option (Bytes × Bytes)
match_digits zero s = some ([], s)
match_digits (suc k) [] = none
match_digits (suc k) (c ∷ cs) =
    let later = before_rest (c ∷ []) (match_digits k cs) in if is_digit c then later else none

abbrev text_of_match : Option (Bytes × Bytes) → Option Bytes
text_of_match none = none
text_of_match (some (s, rest)) = some s

abbrev onto_match : Bytes → Option Bytes → Option Bytes
onto_match front none = none
onto_match front (some s) = some (front ++ s)

-- A run of digits with any character behind, and then the rest of the expression.
abbrev then_any : (Bytes → Option Bytes) → Option (Bytes × Bytes) → Option Bytes
then_any later none = none
then_any later (some (ds, [])) = none
then_any later (some (ds, c ∷ rest)) =
    if c == 10 then none else onto_match (ds ++ c ∷ []) (later rest)

-- `(?:[0-9]{1,3}.){n}(?:[0-9]{1,3})` at the start of a text.
unfoldable pub match_octets : ℕ → Bytes → Option Bytes
match_octets zero s =
    first_of (text_of_match (match_digits 3 s))
      (first_of (text_of_match (match_digits 2 s)) (text_of_match (match_digits 1 s)))
match_octets (suc n) s = first_of (then_any (match_octets n) (match_digits 3 s)) (
    first_of (then_any (match_octets n) (match_digits 2 s))
      (then_any (match_octets n) (match_digits 1 s)))

abbrev with_mac : Bytes → Option Bytes → Option (Bytes × Bytes)
with_mac mac none = none
with_mac mac (some ip) = some (mac, ip)

abbrev after_mac : Option (Bytes × Bytes) → Option (Bytes × Bytes)
after_mac none = none
after_mac (some (mac, [])) = none
after_mac (some (mac, c ∷ rest)) = if c == b':' then with_mac mac (match_octets 3 rest) else none

-- `rgx.FindStringSubmatch`: the texts of the two groups.
unfoldable pub find_submatch : Bytes → Option (Bytes × Bytes)
find_submatch [] = none
find_submatch (c ∷ cs) = first_of (after_mac (match_mac 5 (c ∷ cs))) (find_submatch cs)

pub ascii-IsScalar : (n : ℕ) → ltb n 128 ≡ true → IsScalar n
ascii-IsScalar n h = ground arith

ascii_char : (n : ℕ) (b : Bool) → ltb n 128 ≡ b → Char
ascii_char n true small = char n (ascii-IsScalar n small)
ascii_char n false large = char 63 (ascii-IsScalar 63 refl)

-- The text of a match, whose bytes are of ASCII.
unfoldable pub ascii_text : Bytes → String
unfolding ascii_char
ascii_text [] = String.[]
ascii_text (c ∷ cs) = String.◌∷◌ (ascii_char c (ltb c 128) refl) (ascii_text cs)

abbrev onto_pairs :
    (Bytes → IpAddr) → Option (Bytes × Bytes) → List (String × IpAddr) → List (String × IpAddr)
onto_pairs parse_ipv6 none rest = rest
onto_pairs parse_ipv6 (some (mac, ip)) rest = (ascii_text mac, parse_ip parse_ipv6 ip) ∷ rest

-- The parts of the text; one that does not match is logged and passed over.
unfoldable pub pairs_of : (Bytes → IpAddr) → List Bytes → List (String × IpAddr)
pairs_of parse_ipv6 [] = []
pairs_of parse_ipv6 (part ∷ parts) =
    onto_pairs parse_ipv6 (find_submatch part) (pairs_of parse_ipv6 parts)

unfoldable pub assigned_pairs : (Bytes → IpAddr) → Bytes → List (String × IpAddr)
assigned_pairs parse_ipv6 text =
    if length text == 0 then [] else pairs_of parse_ipv6 (split b',' text)
