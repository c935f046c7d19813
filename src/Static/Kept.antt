-- ===== src/Static/Kept.antt =====
-- utils.go and config.go: addresses that are excluded or assigned are not given out.
use standalone_dhcp.Prelude.{
  ℕ, ◌≡◌, inl, inr, subst, false, some, String, List, [], ◌∷◌, ◌==◌, nat_eq, string_eq, arith,
  Option-cases, Bool-cases, nat_beq_iff,
}
use standalone_dhcp.Prelude.Map.{Map, has, lookup, insert, lookup-delete, lookup-insert}
use standalone_dhcp.Net.{IpAddr}
use standalone_dhcp.Pool.{DhcpPool, reserve_ip_index, fake_mac}
use standalone_dhcp.Pool.Invariant.{IsValid, reserve_ip_index-IsValid}
use standalone_dhcp.Static.{position_of, exclude_ips, assign_ips}

-- An index that is not free stays so.
pub reserve_keeps :
    (i j : ℕ) (m : String) (p : DhcpPool)
    → has j p.free ≡ false
    → has j (reserve_ip_index i m p).0.free ≡ false
unfolding reserve_ip_index
reserve_keeps i j m p h = ground (arith, lookup-delete i j p.free)

-- And so does every index after its reservation.
reserve_takes :
    (i : ℕ) (m : String) (p : DhcpPool) → IsValid p → has i (reserve_ip_index i m p).0.free ≡ false
unfolding reserve_ip_index
reserve_takes i m p v = ground (arith, v.inside i, lookup-delete i i p.free, nat_beq_iff i i)

-- The index of each address of a list is not free.
abbrev pub AllTaken : IpAddr → List IpAddr → DhcpPool → Type 0
AllTaken start [] p = Unit
AllTaken start ([] ∷ ips) p = AllTaken start ips p
AllTaken start ((b ∷ bs) ∷ ips) p =
    ((i : ℕ) → position_of start (b ∷ bs) ≡ some i → has i p.free ≡ false) × AllTaken start ips p

-- What is kept: an index that is not free, and the invariant.
exclude_ips_keeps :
    (start : IpAddr) (ips : List IpAddr) (p p' : DhcpPool) (j : ℕ)
    → exclude_ips start ips p ≡ some p'
    → has j p.free ≡ false
    → has j p'.free ≡ false
unfolding exclude_ips
exclude_ips_keeps start [] p p' j e h =
    let same : p ≡ p' = ground arith in subst (λ q. has j q.free ≡ false) same h
exclude_ips_keeps start ([] ∷ ips) p p' j e h = exclude_ips_keeps start ips p p' j e h
exclude_ips_keeps start ((b ∷ bs) ∷ ips) p p' j e h =
    elim (Option-cases (position_of start (b ∷ bs))) [
      | inl short ↦ absurd (let e' = rw (short, exclude_ips) at e in ground arith)
      | inr (i, at_i) ↦
          exclude_ips_keeps start ips (reserve_ip_index i fake_mac p).0 p' j
            (rw (at_i, exclude_ips) at e) (reserve_keeps i j fake_mac p h)
    ]

-- If `ExcludeIP` ends without a panic on a pool that satisfies the invariant, the index of no
-- excluded address is free afterwards, and the pool satisfies the invariant.
pub exclude_ips-AllTaken :
    (start : IpAddr) (ips : List IpAddr) (p p' : DhcpPool)
    → IsValid p
    → exclude_ips start ips p ≡ some p'
    → AllTaken start ips p' × IsValid p'
unfolding exclude_ips
exclude_ips-AllTaken start [] p p' v e =
    let same : p ≡ p' = ground arith in (tt, subst IsValid same v)
exclude_ips-AllTaken start ([] ∷ ips) p p' v e = exclude_ips-AllTaken start ips p p' v e
exclude_ips-AllTaken start ((b ∷ bs) ∷ ips) p p' v e =
    elim (Option-cases (position_of start (b ∷ bs))) [
      | inl short ↦ absurd (let e' = rw (short, exclude_ips) at e in ground arith)
      | inr (i, at_i) ↦
          let q : DhcpPool = (reserve_ip_index i fake_mac p).0 in
          let later : exclude_ips start ips q ≡ some p' = rw (at_i, exclude_ips) at e in
          let (taken, valid) =
            exclude_ips-AllTaken start ips q p' (reserve_ip_index-IsValid i fake_mac p v) later in
          let own : has i p'.free ≡ false =
            exclude_ips_keeps start ips q p' i later (reserve_takes i fake_mac p v) in
          (
            (
              λ k at_k.
                  let same : i ≡ k = ground (arith, at_i, at_k) in
                  subst (λ n. has n p'.free ≡ false) same own,
              taken,
            ),
            valid,
          )
    ]

-- The index of each entry of the static addresses is not free.
abbrev pub StaticTaken : Map String ℕ → DhcpPool → Type 0
StaticTaken couple p = (mac : String) (i : ℕ) → lookup mac couple ≡ some i → has i p.free ≡ false

-- If `AssignIP` ends without a panic on a pool that satisfies the invariant, from static indices
-- none of which is free, no static index is free afterwards, and the pool satisfies the invariant.
pub assign_ips-StaticTaken :
    (start : IpAddr) (pairs : List (String × IpAddr)) (p p' : DhcpPool)
    (couple couple' : Map String ℕ)
    → IsValid p
    → StaticTaken couple p
    → assign_ips start pairs p couple ≡ some (p', couple')
    → StaticTaken couple' p' × IsValid p'
unfolding assign_ips
assign_ips-StaticTaken start [] p p' couple couple' v h e =
    let same : p ≡ p' = ground arith in
    let same' : couple ≡ couple' = ground arith in
    (subst (λ c. StaticTaken c p') same' (subst (StaticTaken couple) same h), subst IsValid same v)
assign_ips-StaticTaken start ((mac, ip) ∷ rest) p p' couple couple' v h e =
    elim (Option-cases (position_of start ip)) [
      | inl short ↦ absurd (let e' = rw (short, assign_ips) at e in ground arith)
      | inr (i, at_i) ↦
          assign_ips-StaticTaken start rest (reserve_ip_index i mac p).0 p' (insert mac i couple)
            couple' (reserve_ip_index-IsValid i mac p v)
            (λ m j found. elim (Bool-cases (mac == m)) [
              | inl own ↦
                  let same : i ≡ j = ground (arith, lookup-insert mac m i couple, found) in
                  subst (λ n. has n (reserve_ip_index i mac p).0.free ≡ false) same
                    (reserve_takes i mac p v)
              | inr other ↦
                  reserve_keeps i j mac p
                    (h m j (ground (arith, lookup-insert mac m i couple, found)))
            ])
            (rw (at_i, assign_ips) at e)
    ]
