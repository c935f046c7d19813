-- ===== src/Pool/Create.antt =====
-- pool/pool.go: the pool that `NewDHCPPool` makes.
use standalone_dhcp.Prelude.{
  ℕ, zero, suc, ◌+◌, ◌≡◌, refl, sym, subst, true, [], ltb, length, arith, nat_eq, string_eq,
}
use standalone_dhcp.Prelude.Int.{ℤ, int_eq}
use standalone_dhcp.Prelude.Map.{
  lookup, insert, has, lookup-insert, IsDistinct, insert-IsDistinct, length-insert,
}
use standalone_dhcp.Pool.{DhcpPool, fill, new_dhcp_pool}
use standalone_dhcp.Pool.Invariant.{IsValid}

-- The state of the loop before round `i`.
record IsFilled (cap i : ℕ) (d : DhcpPool) : Type 0 where
  free_distinct : IsDistinct d.free
  released_distinct : IsDistinct d.released
  free_below : (j : ℕ) → has j d.free ≡ ltb j i
  released_below : (j : ℕ) → has j d.released ≡ ltb j i
  none_held : d.mac ≡ []
  counted : length d.free ≡ i
  sized : d.capacity ≡ cap

abbrev round : (ℕ → ℕ) → ℕ → DhcpPool → DhcpPool
round now i d = record d { free = insert i true d.free; released = insert i (now i) d.released }

round-IsFilled :
    (now : ℕ → ℕ) (cap i : ℕ) (d : DhcpPool)
    → IsFilled cap i d
    → IsFilled cap (suc i) (round now i d)
round-IsFilled now cap i d f = record {
  free_distinct = insert-IsDistinct i true d.free f.free_distinct;
  released_distinct = insert-IsDistinct i (now i) d.released f.released_distinct;
  free_below = λ j. ground (arith, f.free_below j, lookup-insert i j true d.free);
  released_below = λ j. ground (arith, f.released_below j, lookup-insert i j (now i) d.released);
  none_held = f.none_held;
  counted = ground (arith, f.free_below i, length-insert i true d.free, f.counted);
  sized = f.sized;
}

fill-IsFilled :
    (now : ℕ → ℕ) (cap n i : ℕ) (d : DhcpPool)
    → i + n ≡ cap
    → IsFilled cap i d
    → IsFilled cap cap (fill now n i d)
unfolding fill
fill-IsFilled now cap zero i d e f =
    let e' : i ≡ cap = omega arith in subst (λ k. IsFilled cap k d) e' f
fill-IsFilled now cap (suc n) i d e f = fill-IsFilled now cap n (i + 1) _ (omega arith) (
    let e' : suc i ≡ i + 1 = omega arith in
    subst (λ k. IsFilled cap k (round now i d)) e' (round-IsFilled now cap i d f))

new_dhcp_pool-IsFilled :
    (now : ℕ → ℕ) (cap : ℕ) (algorithm : ℤ) → IsFilled cap cap (new_dhcp_pool now cap algorithm)
unfolding new_dhcp_pool lookup
new_dhcp_pool-IsFilled now cap algorithm = fill-IsFilled now cap cap 0 _ (omega arith) (record {
  free_distinct = tt;
  released_distinct = tt;
  free_below = λ j. ground arith;
  released_below = λ j. ground arith;
  none_held = refl;
  counted = refl;
  sized = refl;
})

-- Every index of a new pool is free.
pub new_dhcp_pool-free :
    (now : ℕ → ℕ) (cap : ℕ) (algorithm : ℤ) (i : ℕ)
    → has i (new_dhcp_pool now cap algorithm).free ≡ ltb i cap
new_dhcp_pool-free now cap algorithm = (new_dhcp_pool-IsFilled now cap algorithm).free_below

pub new_dhcp_pool-capacity :
    (now : ℕ → ℕ) (cap : ℕ) (algorithm : ℤ) → (new_dhcp_pool now cap algorithm).capacity ≡ cap
new_dhcp_pool-capacity now cap algorithm = (new_dhcp_pool-IsFilled now cap algorithm).sized

pub new_dhcp_pool-length :
    (now : ℕ → ℕ) (cap : ℕ) (algorithm : ℤ) → length (new_dhcp_pool now cap algorithm).free ≡ cap
new_dhcp_pool-length now cap algorithm = (new_dhcp_pool-IsFilled now cap algorithm).counted

pub new_dhcp_pool-IsValid :
    (now : ℕ → ℕ) (cap : ℕ) (algorithm : ℤ) → IsValid (new_dhcp_pool now cap algorithm)
unfolding lookup
new_dhcp_pool-IsValid now cap algorithm = record {
  free_distinct = f.free_distinct;
  mac_distinct = subst IsDistinct (sym f.none_held) tt;
  released_distinct = f.released_distinct;
  split = λ j. ground (arith, f.free_below j, f.none_held, f.sized);
  inside = λ j h. ground (arith, f.free_below j, f.sized);
  dated = λ j h. ground (arith, f.free_below j, f.released_below j);
  counted = ground (arith, f.none_held, f.counted, f.sized);
}
  where
    f : IsFilled cap cap (new_dhcp_pool now cap algorithm)
    f = new_dhcp_pool-IsFilled now cap algorithm
