-- ===== src/Pool/Invariant.antt =====
-- pool/pool.go: the invariant of the pool, and that every method keeps it.
use standalone_dhcp.Prelude.{
  ℕ, ◌+◌, ◌<◌, ◌≡◌, String, true, not, ◌&&◌, ltb, length, arith, nat_eq, string_eq,
}
use standalone_dhcp.Prelude.Int.{int_eq}
use standalone_dhcp.Prelude.Map.{
  has, lookup-insert, lookup-delete, IsDistinct, insert-IsDistinct, delete-IsDistinct,
  length-insert, length-delete,
}
use standalone_dhcp.Pool.{DhcpPool, reserve_ip_index, free_ip_index}

pub record IsValid (p : DhcpPool) : Type 0 where
  pub free_distinct : IsDistinct p.free
  pub mac_distinct : IsDistinct p.mac
  pub released_distinct : IsDistinct p.released
  -- The held indices are those of the pool that are not free.
  pub split : (i : ℕ) → has i p.mac ≡ (ltb i p.capacity && not (has i p.free))
  pub inside : (i : ℕ) → has i p.free ≡ true → i < p.capacity
  pub dated : (i : ℕ) → has i p.free ≡ true → has i p.released ≡ true
  pub counted : length p.free + length p.mac ≡ p.capacity

pub reserve_ip_index-IsValid :
    (i : ℕ) (m : String) (p : DhcpPool) → IsValid p → IsValid (reserve_ip_index i m p).0
unfolding reserve_ip_index
reserve_ip_index-IsValid i m p v = record {
  free_distinct = ground (arith, delete-IsDistinct i p.free v.free_distinct);
  mac_distinct = ground (arith, insert-IsDistinct i m p.mac v.mac_distinct);
  released_distinct = ground arith;
  split = λ j.
      ground (arith, v.split j, v.inside i, lookup-delete i j p.free, lookup-insert i j m p.mac);
  inside = λ j h. ground (arith, v.inside j, lookup-delete i j p.free);
  dated = λ j h. ground (arith, v.dated j, lookup-delete i j p.free);
  counted = ground (
    arith,
    v.split i,
    v.counted,
    length-delete i p.free v.free_distinct,
    length-insert i m p.mac,
  );
}

pub free_ip_index-IsValid :
    (now i : ℕ) (p : DhcpPool) → IsValid p → IsValid (free_ip_index now i p).0
unfolding free_ip_index
free_ip_index-IsValid now i p v = record {
  free_distinct = ground (arith, insert-IsDistinct i true p.free v.free_distinct);
  mac_distinct = ground (arith, delete-IsDistinct i p.mac v.mac_distinct);
  released_distinct = ground (arith, insert-IsDistinct i now p.released v.released_distinct);
  split = λ j. ground (arith, v.split j, lookup-insert i j true p.free, lookup-delete i j p.mac);
  inside = λ j h. ground (arith, v.inside j, lookup-insert i j true p.free);
  dated = λ j h.
      ground (arith, v.dated j, lookup-insert i j true p.free, lookup-insert i j now p.released);
  counted = ground (
    arith,
    v.split i,
    v.counted,
    length-delete i p.mac v.mac_distinct,
    length-insert i true p.free,
  );
}

pub reserve_ip_index-capacity :
    (i : ℕ) (m : String) (p : DhcpPool) → (reserve_ip_index i m p).0.capacity ≡ p.capacity
unfolding reserve_ip_index
reserve_ip_index-capacity i m p = ground arith
