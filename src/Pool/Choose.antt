-- ===== src/Pool/Choose.antt =====
-- pool/pool.go: what `GetFreeIPIndex` chooses, by both algorithms.
use standalone_dhcp.Prelude.{
  ℕ, zero, suc, ◌≤◌, ◌<◌, ◌≡◌, refl, sym, subst, Bool, true, false, ◌||◌, ◌≢◌, some, List, [], ◌∷◌,
  leb, ◌==◌, length, arith, nat_eq, string_eq, nat_beq_iff, All, Option-cases, inl, inr, Bool-cases,
  leb→le,
}
use standalone_dhcp.Prelude.Int.{pos, int_eq}
use standalone_dhcp.Prelude.Map.{Map, lookup, has}
use standalone_dhcp.Pool.{
  DhcpPool, Choice, released_free, sort_insert, sort_by_value, first_key, nth_key, choose_available,
}
use standalone_dhcp.Pool.Invariant.{IsValid}

abbrev pub contains : List ℕ → ℕ → Bool
contains [] a = false
contains (x ∷ xs) a = x == a || contains xs a

-- `range` visits each key of the map once, and `rand.Intn(n)` is below `n`.
pub record IsChoice (p : DhcpPool) (c : Choice) : Type 0 where
  pub free_visit : (k : ℕ) → contains c.free_order k ≡ has k p.free
  pub free_once : length c.free_order ≡ length p.free
  pub released_visit : (k : ℕ) → contains c.released_order k ≡ has k p.released
  pub intn_range : (n : ℕ) → 0 < n → c.intn n < n

pub nth_key-contains :
    (d : ℕ) (ks : List ℕ) (i : ℕ) → i < length ks → contains ks (nth_key d ks i) ≡ true
unfolding nth_key
nth_key-contains d [] i h = absurd (omega arith)
nth_key-contains d (k ∷ ks) zero h = ground arith
nth_key-contains d (k ∷ ks) (suc i) h = ground (arith, nth_key-contains k ks i)

-- Every key that is visited is the choice for some index below the number of keys.
pub nth_key_onto :
    (d : ℕ) (ks : List ℕ) (k : ℕ)
    → contains ks k ≡ true
    → (i : ℕ) × (i < length ks) × (nth_key d ks i ≡ k)
unfolding nth_key
nth_key_onto d [] k h = absurd (ground arith)
nth_key_onto d (x ∷ ks) k h = elim (Bool-cases (x == k)) [
  | inl here ↦ (0, omega arith, ground arith)
  | inr other ↦
      let (i, below, found) = nth_key_onto x ks k (ground arith) in (suc i, omega arith, found)
]

-- No entry of the list has a time before `t`.
abbrev pub NoneBefore : ℕ → List (ℕ × ℕ) → Type 0
NoneBefore t = All (λ kv. t ≤ kv.1)

NoneBefore-mono : (s t : ℕ) (xs : List (ℕ × ℕ)) → s ≤ t → NoneBefore t xs → NoneBefore s xs
NoneBefore-mono s t [] h b = tt
NoneBefore-mono s t (x ∷ xs) h b = (omega arith, NoneBefore-mono s t xs h b.1)

module _ (P : ℕ × ℕ → Type 0) where
  -- The head of the sorted slice is one of the entries, and none is older.
  pub sort_by_value-head :
      (a : ℕ × ℕ) (rest : List (ℕ × ℕ))
      → All P (a ∷ rest)
      → (b : ℕ × ℕ) × (bs : List (ℕ × ℕ)) × (sort_by_value (a ∷ rest) ≡ b ∷ bs)
        × P b
        × NoneBefore b.1 (a ∷ rest)
  unfolding sort_by_value sort_insert
  sort_by_value-head a [] h = (a, [], refl, h.0, (omega arith, tt))
  sort_by_value-head a (x ∷ rest) h =
      let (b, bs, e, pb, least) = sort_by_value-head x rest h.1 in
      elim (Bool-cases (leb a.1 b.1)) [
        | inl before ↦ (
          a,
          b ∷ bs,
          rw (e, before),
          h.0,
          (omega arith, NoneBefore-mono a.1 b.1 (x ∷ rest) (leb→le _ _ before) least),
        )
        | inr after ↦ (b, sort_insert a bs, rw (e, after), pb, (ground arith, least))
      ]

module _ (p : DhcpPool) where
  -- An entry is a free key with its release time.
  abbrev IsEntry : ℕ × ℕ → Type 0
  IsEntry kv = (lookup kv.0 p.released ≡ some kv.1) × (has kv.0 p.free ≡ true)

  released_free-IsEntry : (ks : List ℕ) → All IsEntry (released_free p ks)
  unfolding released_free
  released_free-IsEntry [] = tt
  released_free-IsEntry (k ∷ ks) = ground (arith, released_free-IsEntry ks)

  -- Every visited free key has an entry.
  released_free-bound :
      (t : ℕ) (ks : List ℕ) (k v : ℕ)
      → contains ks k ≡ true
      → IsEntry (k, v)
      → NoneBefore t (released_free p ks)
      → t ≤ v
  unfolding released_free
  released_free-bound t [] k v h e b = absurd (ground arith)
  released_free-bound t (x ∷ ks) k v h e b =
      ground (arith, nat_beq_iff x k, released_free-bound t ks k v)

  released_free-ne-nil :
      (ks : List ℕ) (k v : ℕ) → contains ks k ≡ true → IsEntry (k, v) → released_free p ks ≢ []
  unfolding released_free
  released_free-ne-nil [] k v h e = λ _. ground arith
  released_free-ne-nil (x ∷ ks) k v h e =
      ground (arith, nat_beq_iff x k, released_free-ne-nil ks k v)

free-nonempty : (m : Map ℕ Bool) → (length m == 0) ≡ false → (k : ℕ) × (has k m ≡ true)
unfolding lookup
free-nonempty [] h = absurd (ground arith)
free-nonempty ((k, v) ∷ m) h = (k, ground arith)

-- A free index that was released no later than any other free index.
abbrev pub IsOldest : DhcpPool → ℕ → Type 0
IsOldest p i =
    (v : ℕ) × (lookup i p.released ≡ some v)
    × (has i p.free ≡ true)
    × ((j w : ℕ) → has j p.free ≡ true → lookup j p.released ≡ some w → v ≤ w)

module _ (p : DhcpPool) (c : Choice) (valid : IsValid p) (choice : IsChoice p c) where
  first_key-IsOldest :
      (xs : List (ℕ × ℕ))
      → released_free p c.released_order ≡ xs
      → xs ≢ []
      → IsOldest p (first_key 0 (sort_by_value xs))
  unfolding first_key
  first_key-IsOldest [] e h = absurd (h refl)
  first_key-IsOldest (a ∷ rest) e h =
      let entries : All (IsEntry p) (a ∷ rest) =
        subst (All (IsEntry p)) e (released_free-IsEntry p c.released_order) in
      let (b, bs, sorted, entry, least) = sort_by_value-head (IsEntry p) a rest entries in
      rw sorted (
        b.1,
        entry.0,
        entry.1,
        λ j w free dated.
            released_free-bound p b.1 c.released_order j w (ground (arith, choice.released_visit j))
              (dated, free) (subst (NoneBefore b.1) (sym e) least),
      )

  some-entry : (length p.free == 0) ≡ false → released_free p c.released_order ≢ []
  some-entry h =
      let (k, free) = free-nonempty p.free h in
      elim (Option-cases (lookup k p.released)) [
        | inl e ↦ absurd (ground (arith, valid.dated k))
        | inr (v, e) ↦
            released_free-ne-nil p c.released_order k v (ground (arith, choice.released_visit k))
              (e, free)
      ]

  -- With algorithm 2 the choice is a free index, and no free index was released before it.
  pub choose_available-IsOldest :
      (p.algorithm == pos 2) ≡ true
      → (length p.free == 0) ≡ false
      → IsOldest p (choose_available c p)
  unfolding choose_available
  choose_available-IsOldest two h = rw two (first_key-IsOldest _ refl (some-entry h))

  -- With every algorithm it is a free index.
  pub choose_available-free :
      (length p.free == 0) ≡ false → has (choose_available c p) p.free ≡ true
  unfolding choose_available
  choose_available-free h = elim (Bool-cases (p.algorithm == pos 2)) [
    | inl two ↦ (choose_available-IsOldest two h).2
    | inr other ↦ rw other (
        let drawn : contains c.free_order (nth_key 0 c.free_order (c.intn (length p.free))) ≡ true =
          nth_key-contains 0 c.free_order _
            (ground (arith, choice.free_once, choice.intn_range (length p.free))) in
        ground (arith, choice.free_visit (nth_key 0 c.free_order (c.intn (length p.free)))))
  ]
