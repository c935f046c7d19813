-- ===== src/Shuffle.antt =====
-- utils.go: the shuffles of address lists. `draw i` is what `random.Intn(i + 1)` answers.
pub mod Permutes
use standalone_dhcp.Prelude.{
  String, ℕ, zero, suc, ◌-◌, List, [], ◌∷◌, ◌++◌, Option, none, some, length, get_elem?, set,
}
use standalone_dhcp.Net.{IpAddr, to4, ipv4}
use standalone_dhcp.Convert.{Bytes, parse_ip, split}

-- `array[i], array[j] = array[j], array[i]`; both indices are in range.
unfoldable pub swap {ℓ} : {A : Type ℓ} → ℕ → ℕ → List A → List A
swap i j xs = elim (get_elem? xs i) [
  | none ↦ xs
  | some a ↦ elim (get_elem? xs j) [ none ↦ xs | some b ↦ set (set xs i b) j a ]
]

-- `for i := n; i > 0; i--`.
unfoldable pub shuffle_from {ℓ} : {A : Type ℓ} → (ℕ → ℕ) → ℕ → List A → List A
shuffle_from draw zero xs = xs
shuffle_from draw (suc i) xs = shuffle_from draw i (swap (suc i) (draw (suc i)) xs)

-- The loop that appends the bytes of the addresses.
unfoldable pub concat_bytes : List (List ℕ) → List ℕ
concat_bytes [] = []
concat_bytes (a ∷ rest) = a ++ concat_bytes rest

unfoldable pub shuffle_net_ip : (ℕ → ℕ) → List IpAddr → List ℕ
shuffle_net_ip draw array = concat_bytes (shuffle_from draw (length array - 1) array)

-- The loop of `Shuffle` that parses the addresses; what is no IPv4 address becomes nil.
unfoldable pub parse_addresses : (Bytes → IpAddr) → List Bytes → List IpAddr
parse_addresses parse_ipv6 [] = []
parse_addresses parse_ipv6 (s ∷ rest) =
    to4 (parse_ip parse_ipv6 s) ∷ parse_addresses parse_ipv6 rest

-- `Shuffle`, whose loops are those of `ShuffleNetIP`, with a seed from the clock.
unfoldable pub shuffle : (Bytes → IpAddr) → (ℕ → ℕ) → Bytes → Bytes
shuffle parse_ipv6 draw addresses =
    let array = parse_addresses parse_ipv6 (split b',' addresses) in
    concat_bytes (shuffle_from draw (length array - 1) array)

-- `ShuffleDNS` and `ShuffleGateway`, of a section given by the values of its keys.
unfoldable pub shuffle_dns : (Bytes → IpAddr) → (ℕ → ℕ) → (String → Bytes) → Bytes
shuffle_dns parse_ipv6 draw sec = shuffle parse_ipv6 draw (sec "dns")

unfoldable pub shuffle_gateway : (Bytes → IpAddr) → (String → Bytes) → Bytes
shuffle_gateway parse_ipv6 sec = to4 (parse_ip parse_ipv6 (sec "gateway"))

-- The loop of `ShuffleIP` that cuts the bytes into addresses; a rest of less than four is dropped.
unfoldable pub cut_addresses : List ℕ → List IpAddr
cut_addresses (a ∷ b ∷ c ∷ d ∷ rest) = to4 (ipv4 a b c d) ∷ cut_addresses rest
cut_addresses _ = []

unfoldable pub shuffle_ip : (ℕ → ℕ) → List ℕ → List ℕ
shuffle_ip draw a = shuffle_net_ip draw (cut_addresses a)
