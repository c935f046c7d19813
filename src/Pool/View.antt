-- ===== src/Pool/View.antt =====
-- pool/pool.go: the abstract pool, a slot for each index, and the methods as steps on slots.
use standalone_dhcp.Prelude.{
  ℕ, ◌≡◌, ◌≢◌, String, true, ◌↔◌, Option, none, some, ltb, ◌==◌, if◌then◌else◌, arith, nat_eq,
  string_eq, nat_beq_iff,
}
use standalone_dhcp.Prelude.Int.{int_eq}
use standalone_dhcp.Prelude.Map.{lookup, has, lookup-insert, lookup-delete}
use standalone_dhcp.Pool.{
  DhcpPool, PoolError, reserve_ip_index, free_ip_index, get_mac_index, is_free_ip_at_index,
  free_mac, reserve_outside, already_reserved, free_outside, already_free, not_in_pool, index_free,
  or_empty,
}
use standalone_dhcp.Pool.Allocate.{assign}

-- What an index of the pool is: no part of it, free, or held by a hardware address.
pub data Slot : Type 0 where
  outside free : Slot
  held : String → Slot

abbrev pub view : DhcpPool → ℕ → Slot
view p i =
    if ltb i p.capacity
    then (if has i p.free then free else held (or_empty (lookup i p.mac)))
    else outside

abbrev pub hold : String → Slot → Slot
hold m outside = outside
hold m free = held m
hold m (held n) = held n

abbrev pub let_go : Slot → Slot
let_go outside = outside
let_go free = free
let_go (held n) = free

-- One slot changes, by `f`.
abbrev pub at : ℕ → (Slot → Slot) → (ℕ → Slot) → ℕ → Slot
at i f s j = if i == j then f (s j) else s j

abbrev pub reserve_answer : String → Slot → Option PoolError × String
reserve_answer m outside = (some reserve_outside, free_mac)
reserve_answer m free = (none, m)
reserve_answer m (held n) = (some already_reserved, free_mac)

abbrev pub free_answer : Slot → Option PoolError
free_answer outside = some free_outside
free_answer free = some already_free
free_answer (held n) = none

abbrev pub mac_answer : Slot → String × Option PoolError
mac_answer outside = (free_mac, some not_in_pool)
mac_answer free = (free_mac, some index_free)
mac_answer (held n) = (n, none)

-- `ReserveIPIndex` holds the slot for `m` if it is free, changes no other slot, and answers by what
-- the slot was.
pub view-reserve_ip_index :
    (i : ℕ) (m : String) (p : DhcpPool)
    → ((j : ℕ) → view (reserve_ip_index i m p).0 j ≡ at i (hold m) (view p) j)
      × ((reserve_ip_index i m p).1 ≡ (reserve_answer m (view p i)).0)
      × ((reserve_ip_index i m p).2 ≡ (reserve_answer m (view p i)).1)
unfolding reserve_ip_index
view-reserve_ip_index i m p = (
  λ j. ground (arith, nat_beq_iff i j, lookup-delete i j p.free, lookup-insert i j m p.mac),
  ground arith,
  ground arith,
)

-- `FreeIPIndex` frees a held slot, whoever holds it, changes no other slot, and answers by what the
-- slot was.
pub view-free_ip_index :
    (now i : ℕ) (p : DhcpPool)
    → ((j : ℕ) → view (free_ip_index now i p).0 j ≡ at i let_go (view p) j)
      × ((free_ip_index now i p).1 ≡ free_answer (view p i))
unfolding free_ip_index
view-free_ip_index now i p = (
  λ j. ground (arith, nat_beq_iff i j, lookup-insert i j true p.free, lookup-delete i j p.mac),
  ground arith,
)

-- `GetMACIndex` answers by what the slot is: who holds it, or the zero address with an error.
pub view-get_mac_index :
    (i : ℕ) (p : DhcpPool)
    → ((get_mac_index i p).1 ≡ (mac_answer (view p i)).0)
      × ((get_mac_index i p).2 ≡ (mac_answer (view p i)).1)
unfolding get_mac_index
view-get_mac_index i p = (ground arith, ground arith)

pub view-is_free_ip_at_index :
    (i : ℕ) (p : DhcpPool) → (is_free_ip_at_index i p ≡ true) ↔ (view p i ≡ free)
unfolding is_free_ip_at_index
view-is_free_ip_at_index i p = ground arith

pub view-assign :
    (i : ℕ) (m : String) (p : DhcpPool)
    → has i p.free ≡ true
    → (j : ℕ) → view (assign i m p) j ≡ at i (hold m) (view p) j
view-assign i m p h j =
    ground (arith, nat_beq_iff i j, lookup-delete i j p.free, lookup-insert i j m p.mac)

-- An index that is not free is not reserved again.
pub reserve_ip_index_taken :
    (i : ℕ) (m client : String) (p : DhcpPool)
    → client ≢ free_mac
    → (get_mac_index i p).1 ≡ client
    → (reserve_ip_index i m p).0 ≡ p
unfolding reserve_ip_index get_mac_index
reserve_ip_index_taken i m client p h e = ground arith
