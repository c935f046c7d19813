-- ===== src/Pool/Run.antt =====
-- pool/pool.go: any interleaving of calls on a pool, and repeated allocation.
use standalone_dhcp.Prelude.{
  ℕ, zero, suc, ◌+◌, ◌≤◌, ◌≡◌, refl, ◌∙◌, String, true, false, some, List, [], ◌∷◌, length, arith,
  nat_eq, string_eq, nat_beq_iff, inl, inr,
}
use standalone_dhcp.Prelude.Int.{ℤ, int_eq}
use standalone_dhcp.Prelude.Map.{delete, has, lookup-delete, length-delete}
use standalone_dhcp.Pool.{
  DhcpPool, Choice, pool_full, new_dhcp_pool, reserve_ip_index, free_ip_index, get_free_ip_index,
  free_mac,
}
use standalone_dhcp.Pool.Invariant.{
  IsValid, reserve_ip_index-capacity, reserve_ip_index-IsValid, free_ip_index-IsValid,
}
use standalone_dhcp.Pool.Choose.{IsChoice, contains}
use standalone_dhcp.Pool.Allocate.{
  assign, assign-IsValid, get_free_ip_index_cases, get_free_ip_index-IsValid,
}
use standalone_dhcp.Pool.Create.{new_dhcp_pool-IsValid}

-- One call under the lock, by any goroutine.
pub data Step (p : DhcpPool) : DhcpPool → Type 0 where
  reserves : (i : ℕ) (m : String) → Step p (reserve_ip_index i m p).0
  frees : (now i : ℕ) → Step p (free_ip_index now i p).0
  allocates : (c : Choice) (m : String) → IsChoice p c → Step p (get_free_ip_index c m p).0

pub data Reach (p : DhcpPool) : DhcpPool → Type 0 where
  here : Reach p p
  next : {q r : DhcpPool} → Reach p q → Step q r → Reach p r

Step-IsValid : {p q : DhcpPool} → Step p q → IsValid p → IsValid q
Step-IsValid {p} (reserves i m) v = reserve_ip_index-IsValid i m p v
Step-IsValid {p} (frees now i) v = free_ip_index-IsValid now i p v
Step-IsValid {p} (allocates c m choice) v = get_free_ip_index-IsValid p c m v choice

pub Reach-IsValid : {p q : DhcpPool} → IsValid p → Reach p q → IsValid q
Reach-IsValid v here = v
Reach-IsValid v (next r s) = Step-IsValid s (Reach-IsValid v r)

Step-capacity : {p q : DhcpPool} → Step p q → q.capacity ≡ p.capacity
unfolding free_ip_index get_free_ip_index
Step-capacity {p} (reserves i m) = reserve_ip_index-capacity i m p
Step-capacity {p} (frees now i) = ground arith
Step-capacity {p} (allocates c m choice) = ground arith

pub Reach-capacity : {p q : DhcpPool} → Reach p q → q.capacity ≡ p.capacity
Reach-capacity here = refl
Reach-capacity (next r s) = Step-capacity s ∙ Reach-capacity r

-- After any interleaving of calls on a new pool the invariant holds: the free and the held indices
-- share out the pool.
pub Reach-new_dhcp_pool :
    (now : ℕ → ℕ) (capacity : ℕ) (algorithm : ℤ) {q : DhcpPool}
    → Reach (new_dhcp_pool now capacity algorithm) q
    → IsValid q
Reach-new_dhcp_pool now capacity algorithm r =
    Reach-IsValid (new_dhcp_pool-IsValid now capacity algorithm) r

-- `n` calls of `GetFreeIPIndex` in a row, and the indices that they answer.
unfoldable pub allocate : (DhcpPool → Choice) → String → ℕ → DhcpPool → DhcpPool × List ℕ
allocate choices m zero p = (p, [])
allocate choices m (suc n) p =
    let r = get_free_ip_index (choices p) m p in
    let (q, is) = allocate choices m n r.0 in (q, r.1 ∷ is)

-- The indices are different from each other, and all free in `p`.
abbrev pub AreFresh : DhcpPool → List ℕ → Type 0
AreFresh p [] = Unit
AreFresh p (i ∷ is) = (has i p.free ≡ true) × (contains is i ≡ false) × AreFresh p is

AreFresh-assign :
    (i : ℕ) (m : String) (p : DhcpPool) (is : List ℕ)
    → AreFresh (assign i m p) is
    → (contains is i ≡ false) × AreFresh p is
AreFresh-assign i m p [] f = (refl, tt)
AreFresh-assign i m p (j ∷ is) f = ground (
  arith,
  nat_beq_iff i j,
  nat_beq_iff j i,
  lookup-delete i j p.free,
  AreFresh-assign i m p is f.2,
)

module _ (choices : DhcpPool → Choice)
    (fair : (p : DhcpPool) → IsValid p → IsChoice p (choices p)) where
  -- On a pool that satisfies the invariant, with choices that Go can make: up to as many calls in a
  -- row as there are free indices answer different indices, each free before, leave as many free
  -- indices less, and keep the invariant.
  pub allocate-AreFresh :
      (m : String) (n : ℕ) (p : DhcpPool)
      → IsValid p
      → n ≤ length p.free
      → AreFresh p (allocate choices m n p).1
        × (length (allocate choices m n p).0.free + n ≡ length p.free)
        × IsValid (allocate choices m n p).0
  unfolding allocate
  allocate-AreFresh m zero p v h = (tt, omega arith, v)
  allocate-AreFresh m (suc n) p v h = elim (get_free_ip_index_cases p (choices p) m v (fair p v)) [
    | inl (full, _) ↦ absurd (omega arith)
    | inr (i, free, _, e) ↦
        let counted : length p.free ≡ suc (length (delete i p.free)) =
          ground (arith, length-delete i p.free v.free_distinct) in
        let (fresh, left, valid) =
          allocate-AreFresh m n (assign i m p) (assign-IsValid i m p v free) (omega arith) in
        let (other, rest) = AreFresh-assign i m p _ fresh in
        rw e ((free, other, rest), omega arith, valid)
  ]

  -- On a pool that satisfies the invariant, with choices that Go can make: after as many calls as
  -- there are free indices the next call fails, and changes nothing.
  pub allocate_all :
      (m k : String) (p : DhcpPool)
      → IsValid p
      → (let q = (allocate choices m (length p.free) p).0 in
          get_free_ip_index (choices q) k q ≡ (q, 0, free_mac, some pool_full))
  allocate_all m k p v =
      let (fresh, left, valid) = allocate-AreFresh m (length p.free) p v (omega arith) in
      let q = (allocate choices m (length p.free) p).0 in
      elim (get_free_ip_index_cases q (choices q) k valid (fair q valid)) [
        | inl (_, e) ↦ e
        | inr (i, free, _, _) ↦ absurd (ground (arith, length-delete i q.free valid.free_distinct))
      ]

pub Reach-trans : {p q r : DhcpPool} → Reach p q → Reach q r → Reach p r
Reach-trans h here = h
Reach-trans h (next k s) = next (Reach-trans h k) s
