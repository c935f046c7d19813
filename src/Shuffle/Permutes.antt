-- ===== src/Shuffle/Permutes.antt =====
-- utils.go: a shuffle keeps the addresses, and their number.
use standalone_dhcp.Prelude.{
  ℕ, zero, suc, ◌-◌, ◌≡◌, refl, ap, List, [], ◌∷◌, some, length, get_elem?, set, arith,
  Option-cases, inl, inr,
}
use mathlib.Core.List.{Perm}
use mathlib.Core.List.Perm
use standalone_dhcp.Net.{IpAddr, to4, ipv4}
use standalone_dhcp.Shuffle.{
  swap, shuffle_from, concat_bytes, shuffle_net_ip, cut_addresses, shuffle_ip,
}

-- A write exchanges the old element for the new one.
set-perm {ℓ} :
    {A : Type ℓ} (xs : List A) (i : ℕ) (a b : A)
    → get_elem? xs i ≡ some a
    → Perm (a ∷ set xs i b) (b ∷ xs)
set-perm [] i a b h = absurd (cc)
set-perm (x ∷ xs) zero a b h =
    let e : a ≡ x = ground arith in
    Perm.trans (Perm.swap b a xs) (Perm.cons b (Perm.cons' e Perm.rfl))
set-perm (x ∷ xs) (suc i) a b h =
    Perm.trans (Perm.swap x a _) (Perm.trans (Perm.cons x (set-perm xs i a b h)) (Perm.swap b x xs))

get_elem?-set_other {ℓ} :
    {A : Type ℓ} (xs : List A) (i j : ℕ) (a b : A)
    → get_elem? xs i ≡ some a
    → get_elem? xs j ≡ some b
    → get_elem? (set xs i b) j ≡ some b
get_elem?-set_other [] i j a b h k = absurd (cc)
get_elem?-set_other (x ∷ xs) zero zero a b h k = refl
get_elem?-set_other (x ∷ xs) zero (suc j) a b h k = k
get_elem?-set_other (x ∷ xs) (suc i) zero a b h k = k
get_elem?-set_other (x ∷ xs) (suc i) (suc j) a b h k = get_elem?-set_other xs i j a b h k

swap-perm {ℓ} : {A : Type ℓ} (i j : ℕ) (xs : List A) → Perm (swap i j xs) xs
unfolding swap
swap-perm i j xs = elim (Option-cases (get_elem? xs i)) [
  | inl none_i ↦ rw (none_i, swap) Perm.rfl
  | inr (a, at_i) ↦ elim (Option-cases (get_elem? xs j)) [
    | inl none_j ↦ rw (at_i, none_j, swap) Perm.rfl
    | inr (b, at_j) ↦
        rw (at_i, at_j, swap)
          (Perm.cons_inv (
            Perm.trans (set-perm (set xs i b) j b a (get_elem?-set_other xs i j a b at_i at_j))
              (set-perm xs i a b at_i)))
  ]
]

pub shuffle_from-perm {ℓ} :
    {A : Type ℓ} (draw : ℕ → ℕ) (n : ℕ) (xs : List A) → Perm (shuffle_from draw n xs) xs
unfolding shuffle_from
shuffle_from-perm draw zero xs = Perm.rfl
shuffle_from-perm draw (suc n) xs =
    Perm.trans (shuffle_from-perm draw n (swap (suc n) (draw (suc n)) xs))
      (swap-perm (suc n) (draw (suc n)) xs)

-- Whatever is drawn, the bytes are those of the same addresses in some order.
pub shuffle_net_ip-perm :
    (draw : ℕ → ℕ) (array : List IpAddr)
    → (order : List IpAddr) × Perm order array × (shuffle_net_ip draw array ≡ concat_bytes order)
unfolding shuffle_net_ip
shuffle_net_ip-perm draw array = (_, shuffle_from-perm draw (length array - 1) array, refl)

-- The whole addresses in a byte string.
abbrev pub addresses : List ℕ → List (List ℕ)
addresses (a ∷ b ∷ c ∷ d ∷ rest) = (a ∷ b ∷ c ∷ d ∷ []) ∷ addresses rest
addresses _ = []

cut_addresses-addresses : (bytes : List ℕ) → cut_addresses bytes ≡ addresses bytes
unfolding cut_addresses to4 ipv4
cut_addresses-addresses (a ∷ b ∷ c ∷ d ∷ rest) =
    ap (◌∷◌ (a ∷ b ∷ c ∷ d ∷ [])) (cut_addresses-addresses rest)
cut_addresses-addresses _ = refl

-- Whatever is drawn, the answer has the bytes of the whole addresses of the option, in some order.
pub shuffle_ip-perm :
    (draw : ℕ → ℕ) (bytes : List ℕ)
    → (order : List IpAddr) × Perm order (addresses bytes)
      × (shuffle_ip draw bytes ≡ concat_bytes order)
unfolding shuffle_ip
shuffle_ip-perm draw bytes = rw cut_addresses-addresses (shuffle_net_ip-perm draw (addresses bytes))
