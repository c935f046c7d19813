-- ===== src/Pool/Allocate.antt =====
-- pool/pool.go: what one call of `GetFreeIPIndex` does to the pool, and a run of any calls.
use standalone_dhcp.Prelude.{
  ℕ, ◌<◌, ◌≡◌, String, true, false, ◌⊎◌, none, some, ◌==◌, length, arith, nat_eq, string_eq, inl,
  inr, Bool-cases,
}
use standalone_dhcp.Prelude.Int.{pos, int_eq}
use standalone_dhcp.Prelude.Map.{
  insert, delete, has, lookup-insert, lookup-delete, insert-IsDistinct, delete-IsDistinct,
  length-insert, length-delete,
}
use standalone_dhcp.Pool.{
  DhcpPool, Choice, pool_full, get_free_ip_index, choose_available, free_mac,
}
use standalone_dhcp.Pool.Invariant.{IsValid}
use standalone_dhcp.Pool.Choose.{
  IsChoice, IsOldest, choose_available-free, choose_available-IsOldest,
}

-- The pool after index `i` went from free to `m`.
abbrev pub assign : ℕ → String → DhcpPool → DhcpPool
assign i m p = record p { free = delete i p.free; mac = insert i m p.mac }

pub assign-IsValid :
    (i : ℕ) (m : String) (p : DhcpPool) → IsValid p → has i p.free ≡ true → IsValid (assign i m p)
assign-IsValid i m p v h = record {
  free_distinct = delete-IsDistinct i p.free v.free_distinct;
  mac_distinct = insert-IsDistinct i m p.mac v.mac_distinct;
  released_distinct = v.released_distinct;
  split = λ j.
      ground (arith, v.split j, v.inside i, lookup-delete i j p.free, lookup-insert i j m p.mac);
  inside = λ j k. ground (arith, v.inside j, lookup-delete i j p.free);
  dated = λ j k. ground (arith, v.dated j, lookup-delete i j p.free);
  counted = ground (
    arith,
    v.split i,
    v.counted,
    length-delete i p.free v.free_distinct,
    length-insert i m p.mac,
  );
}

module _ (p : DhcpPool) (c : Choice) (m : String) (valid : IsValid p) (choice : IsChoice p c) where
  -- On a pool that satisfies the invariant, with a choice that Go can make: the call fails only if
  -- there is no free index, and then changes nothing. Otherwise it answers an index of the pool
  -- that was free, which goes from the free to the held ones, for `m`.
  pub get_free_ip_index_cases :
      ((length p.free ≡ 0) × (get_free_ip_index c m p ≡ (p, 0, free_mac, some pool_full)))
      ⊎ ((i : ℕ) × (has i p.free ≡ true)
          × (i < p.capacity)
          × (get_free_ip_index c m p ≡ (assign i m p, i, m, none)))
  unfolding get_free_ip_index
  get_free_ip_index_cases = elim (Bool-cases (length p.free == 0)) [
    | inl full ↦ inl (ground arith, rw full)
    | inr room ↦
        let free = choose_available-free p c valid choice room in
        inr (choose_available c p, free, valid.inside _ free, rw room)
  ]

  pub get_free_ip_index-IsValid : IsValid (get_free_ip_index c m p).0
  get_free_ip_index-IsValid = elim get_free_ip_index_cases [
    | inl (_, e) ↦ rw e valid
    | inr (i, free, _, e) ↦ rw e (assign-IsValid i m p valid free)
  ]

  -- On a pool that satisfies the invariant and has a free index, with a choice that Go can make: by
  -- algorithm 2 the index that is answered was free, and released no later than any other free
  -- index.
  pub get_free_ip_index-IsOldest :
      (p.algorithm == pos 2) ≡ true → 0 < length p.free → IsOldest p (get_free_ip_index c m p).1
  unfolding get_free_ip_index
  get_free_ip_index-IsOldest two h =
      let room : (length p.free == 0) ≡ false = ground arith in
      rw room (choose_available-IsOldest p c valid choice two room)
