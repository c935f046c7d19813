-- ===== src/Static/Both.antt =====
-- config.go: `ExcludeIP` and then `AssignIP`, on the pool of a new handler.
use standalone_dhcp.Prelude.{
  inl, inr, ℕ, ◌≡◌, refl, ◌∙◌, subst, false, some, String, List, [], ◌∷◌, arith, Option-cases,
  nat_eq,
}
use standalone_dhcp.Prelude.Map.{Map, has, lookup}
use standalone_dhcp.Net.{IpAddr}
use standalone_dhcp.Pool.{DhcpPool, reserve_ip_index, fake_mac}
use standalone_dhcp.Pool.Invariant.{IsValid, reserve_ip_index-capacity}
use standalone_dhcp.Static.{position_of, exclude_ips, assign_ips}
use standalone_dhcp.Static.Kept.{
  AllTaken, StaticTaken, reserve_keeps, exclude_ips-AllTaken, assign_ips-StaticTaken,
}

-- What holds of the pool before and after a call.
record IsLater (p p' : DhcpPool) : Type 0 where
  sized : p'.capacity ≡ p.capacity
  kept : (j : ℕ) → has j p.free ≡ false → has j p'.free ≡ false

IsLater-self : (p p' : DhcpPool) → p ≡ p' → IsLater p p'
IsLater-self p p' e = subst (IsLater p) e (record { sized = refl; kept = λ j h. h })

reserve-IsLater :
    (i : ℕ) (m : String) (p p' : DhcpPool) → IsLater (reserve_ip_index i m p).0 p' → IsLater p p'
reserve-IsLater i m p p' l = record {
  sized = l.sized ∙ reserve_ip_index-capacity i m p;
  kept = λ j h. l.kept j (reserve_keeps i j m p h);
}

exclude_ips-IsLater :
    (start : IpAddr) (ips : List IpAddr) (p p' : DhcpPool)
    → exclude_ips start ips p ≡ some p'
    → IsLater p p'
unfolding exclude_ips
exclude_ips-IsLater start [] p p' e = IsLater-self p p' (ground arith)
exclude_ips-IsLater start ([] ∷ ips) p p' e = exclude_ips-IsLater start ips p p' e
exclude_ips-IsLater start ((b ∷ bs) ∷ ips) p p' e =
    elim (Option-cases (position_of start (b ∷ bs))) [
      | inl short ↦ absurd (let e' = rw (short, exclude_ips) at e in ground arith)
      | inr (i, at_i) ↦ reserve-IsLater i fake_mac p p' (
          exclude_ips-IsLater start ips (reserve_ip_index i fake_mac p).0 p'
            (rw (at_i, exclude_ips) at e))
    ]

assign_ips-IsLater :
    (start : IpAddr) (pairs : List (String × IpAddr)) (p p' : DhcpPool)
    (couple couple' : Map String ℕ)
    → assign_ips start pairs p couple ≡ some (p', couple')
    → IsLater p p'
unfolding assign_ips
assign_ips-IsLater start [] p p' couple couple' e = IsLater-self p p' (ground arith)
assign_ips-IsLater start ((mac, ip) ∷ rest) p p' couple couple' e =
    elim (Option-cases (position_of start ip)) [
      | inl short ↦ absurd (let e' = rw (short, assign_ips) at e in ground arith)
      | inr (i, at_i) ↦ reserve-IsLater i mac p p' (
          assign_ips-IsLater start rest (reserve_ip_index i mac p).0 p' _ couple'
            (rw (at_i, assign_ips) at e))
    ]

AllTaken-later :
    (start : IpAddr) (ips : List IpAddr) (p p' : DhcpPool)
    → IsLater p p'
    → AllTaken start ips p
    → AllTaken start ips p'
AllTaken-later start [] p p' l h = tt
AllTaken-later start ([] ∷ ips) p p' l h = AllTaken-later start ips p p' l h
AllTaken-later start ((b ∷ bs) ∷ ips) p p' l h =
    (λ i at_i. l.kept i (h.0 i at_i), AllTaken-later start ips p p' l h.1)

-- What the two leave of a valid pool.
pub record IsSettled (start : IpAddr) (ips : List IpAddr) (p p' : DhcpPool) (couple : Map String ℕ)
    : Type 0 where
  pub valid : IsValid p'
  pub sized : p'.capacity ≡ p.capacity
  pub excluded : AllTaken start ips p'
  pub assigned : StaticTaken couple p'

no_static : (p : DhcpPool) → StaticTaken [] p
unfolding lookup
no_static p mac i h = absurd (ground (arith, h))

pub both-IsSettled :
    (start : IpAddr) (ips : List IpAddr) (pairs : List (String × IpAddr)) (p q p' : DhcpPool)
    (couple : Map String ℕ)
    → IsValid p
    → exclude_ips start ips p ≡ some q
    → assign_ips start pairs q [] ≡ some (p', couple)
    → IsSettled start ips p p' couple
both-IsSettled start ips pairs p q p' couple v e f =
    let (taken, valid) = exclude_ips-AllTaken start ips p q v e in
    let (static, valid') =
      assign_ips-StaticTaken start pairs q p' [] couple valid (no_static q) f in
    let later : IsLater q p' = assign_ips-IsLater start pairs q p' [] couple f in
    record {
      valid = valid';
      sized = later.sized ∙ (exclude_ips-IsLater start ips p q e).sized;
      excluded = AllTaken-later start ips q p' later taken;
      assigned = static;
    }
