-- ===== src/Net.antt =====
-- What the program uses of Go's `net` and `encoding/binary`: addresses as slices of bytes, and
-- big-endian words. A nil slice is the empty list.
pub mod Laws
use standalone_dhcp.Prelude.{
  ℕ, ◌+◌, ◌-◌, ◌*◌, ◌/◌, ◌%◌, ◌^◌, Bool, true, false, ◌&&◌, ◌||◌, zero, suc, Option, none, some,
  List, [], ◌∷◌, ◌++◌, ◌==◌, nat_eq, if◌then◌else◌, length,
}
use Prim.Native.Nat.{bit_and}

abbrev pub IpAddr : Type 0
IpAddr = List ℕ

-- `[4]byte`.
pub record Quad : Type 0 where
  pub b0 : ℕ
  pub b1 : ℕ
  pub b2 : ℕ
  pub b3 : ℕ

abbrev pub quad_bytes : Quad → List ℕ
quad_bytes q = q.b0 ∷ q.b1 ∷ q.b2 ∷ q.b3 ∷ []

-- `bytes.Equal`.
abbrev pub bytes_equal : List ℕ → List ℕ → Bool
bytes_equal [] [] = true
bytes_equal [] (y ∷ ys) = false
bytes_equal (x ∷ xs) [] = false
bytes_equal (x ∷ xs) (y ∷ ys) = x == y && bytes_equal xs ys

-- The twelve bytes before an IPv4 address in its long form.
abbrev pub v4_prefix : List ℕ
v4_prefix = 0 ∷ 0 ∷ 0 ∷ 0 ∷ 0 ∷ 0 ∷ 0 ∷ 0 ∷ 0 ∷ 0 ∷ 255 ∷ 255 ∷ []

-- The part of a list behind a prefix, if it begins so.
abbrev pub after_prefix : List ℕ → List ℕ → List ℕ
after_prefix [] ys = ys
after_prefix (x ∷ xs) [] = []
after_prefix (x ∷ xs) (y ∷ ys) = if x == y then after_prefix xs ys else []

-- `net.IPv4`.
unfoldable pub ipv4 : ℕ → ℕ → ℕ → ℕ → IpAddr
ipv4 a b c d = v4_prefix ++ a ∷ b ∷ c ∷ d ∷ []

-- `IP.To4`: nil for what is no IPv4 address.
unfoldable pub to4 : IpAddr → IpAddr
to4 ip = if length ip == 4 then ip else if length ip == 16 then after_prefix v4_prefix ip else []

-- `IP.Equal`: the short and the long form of an IPv4 address are the same address.
unfoldable pub ip_equal : IpAddr → IpAddr → Bool
ip_equal ip x =
    if length ip == length x
    then bytes_equal ip x
    else if length ip == 4 && length x == 16
    then bytes_equal (v4_prefix ++ ip) x
    else if length ip == 16 && length x == 4
    then bytes_equal ip (v4_prefix ++ x)
    else false

abbrev pub ipv4_zero : IpAddr
ipv4_zero = v4_prefix ++ 0 ∷ 0 ∷ 0 ∷ 0 ∷ []

abbrev pub ipv4_bcast : IpAddr
ipv4_bcast = v4_prefix ++ 255 ∷ 255 ∷ 255 ∷ 255 ∷ []

-- `copy(q[:], ip)` into an array of zeros: what is missing stays zero, and what is over is left.
unfoldable pub copy_quad : List ℕ → Quad
copy_quad [] = record { b0 = 0; b1 = 0; b2 = 0; b3 = 0 }
copy_quad (a ∷ []) = record { b0 = a; b1 = 0; b2 = 0; b3 = 0 }
copy_quad (a ∷ b ∷ []) = record { b0 = a; b1 = b; b2 = 0; b3 = 0 }
copy_quad (a ∷ b ∷ c ∷ []) = record { b0 = a; b1 = b; b2 = c; b3 = 0 }
copy_quad (a ∷ b ∷ c ∷ d ∷ _) = record { b0 = a; b1 = b; b2 = c; b3 = d }

-- `binary.Write` of a `uint16` in big-endian order.
abbrev pub put_uint16 : ℕ → List ℕ
put_uint16 x = (x / 2 ^ 8 % 2 ^ 8) ∷ (x % 2 ^ 8) ∷ []

-- `net.IPNet`.
pub record IpNet : Type 0 where
  pub ip : IpAddr
  pub mask : List ℕ

-- The mask in the width of an address, and nothing if the widths do not go together.
unfoldable pub fit_mask : IpAddr → List ℕ → Option (List ℕ)
fit_mask ip m =
    if length m == length ip && (length m == 4 || length m == 16)
    then some m
    else if length m == 16 && length ip == 4
    then some (drop 12 m)
    else none
  where
    drop : ℕ → List ℕ → List ℕ
    drop zero xs = xs
    drop (suc n) [] = []
    drop (suc n) (x ∷ xs) = drop n xs

-- Both addresses under the mask, byte by byte; `false` if the widths differ.
unfoldable pub masked_equal : List ℕ → IpAddr → IpAddr → Bool
masked_equal m [] [] = true
masked_equal (m ∷ ms) (a ∷ aa) (b ∷ bs) = bit_and a m == bit_and b m && masked_equal ms aa bs
masked_equal m a b = false

unfoldable pub or_address : IpAddr → IpAddr → IpAddr
or_address ip [] = ip
or_address ip (a ∷ rest) = a ∷ rest

-- `IPNet.Contains`.
unfoldable pub contains : IpNet → IpAddr → Bool
unfolding or_address fit_mask
contains n ip =
    let number = or_address n.ip (to4 n.ip) in
    elim (fit_mask number n.mask) [
      | none ↦ length (or_address ip (to4 ip)) == 0
      | some m ↦ masked_equal m number (or_address ip (to4 ip))
    ]
