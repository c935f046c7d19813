-- ===== src/Pool.antt =====
-- pool/pool.go: the pool of address indices of one network. Time and the order in which `range`
-- visits a map are arguments; the mutex makes each method one step.
pub mod Invariant
pub mod Choose
pub mod Allocate
pub mod Create
pub mod Run
pub mod View
use standalone_dhcp.Prelude.{
  ℕ, zero, suc, ◌+◌, String, Bool, true, false, not, Option, none, some, List, [], ◌∷◌, ltb, leb,
  ◌==◌, if◌then◌else◌, length, is_some,
}
use standalone_dhcp.Prelude.Int.{ℤ, pos}
use standalone_dhcp.Prelude.Map.{Map, lookup, insert, delete, has}
use standalone_dhcp.Prelude.{nat_eq, string_eq}
use standalone_dhcp.Prelude.Int.{int_eq}

abbrev pub free_mac : String
free_mac = "00:00:00:00:00:00"

abbrev pub fake_mac : String
fake_mac = "ff:ff:ff:ff:ff:ff"

pub record DhcpPool : Type 0 where
  pub free : Map ℕ Bool
  pub mac : Map ℕ String
  pub capacity : ℕ
  pub released : Map ℕ ℕ
  pub algorithm : ℤ

pub data PoolError : Type 0 where
  reserve_outside already_reserved free_outside already_free not_in_pool index_free : PoolError
  pool_full : PoolError

-- The loop of `NewDHCPPool`, from `i` on with `n` rounds left.
unfoldable pub fill : (ℕ → ℕ) → ℕ → ℕ → DhcpPool → DhcpPool
fill now zero i d = d
fill now (suc n) i d =
    fill now n (i + 1)
      (record d { free = insert i true d.free; released = insert i (now i) d.released })

-- `now i` is the clock in round `i`.
unfoldable pub new_dhcp_pool : (ℕ → ℕ) → ℕ → ℤ → DhcpPool
new_dhcp_pool now capacity algorithm =
    fill now capacity 0
      (record { free = []; mac = []; capacity = capacity; released = []; algorithm = algorithm })

unfoldable pub index_in_pool : ℕ → DhcpPool → Bool
index_in_pool index dp = ltb index dp.capacity

unfoldable pub reserve_ip_index : ℕ → String → DhcpPool → DhcpPool × Option PoolError × String
reserve_ip_index index mac dp =
    if leb dp.capacity index
    then (dp, some reserve_outside, free_mac)
    else if has index dp.free
    then (record dp { free = delete index dp.free; mac = insert index mac dp.mac }, none, mac)
    else (dp, some already_reserved, free_mac)

unfoldable pub free_ip_index : ℕ → ℕ → DhcpPool → DhcpPool × Option PoolError
unfolding index_in_pool
free_ip_index now index dp =
    if not (index_in_pool index dp)
    then (dp, some free_outside)
    else if has index dp.free
    then (dp, some already_free)
    else (
      record dp {
        free = insert index true dp.free;
        released = insert index now dp.released;
        mac = delete index dp.mac;
      },
      none,
    )

unfoldable pub is_free_ip_at_index : ℕ → DhcpPool → Bool
unfolding index_in_pool
is_free_ip_at_index index dp =
    if not (index_in_pool index dp) then false else if has index dp.free then true else false

-- A missing key reads as the empty text.
abbrev or_empty : Option String → String
or_empty none = ""
or_empty (some m) = m

unfoldable pub get_mac_index : ℕ → DhcpPool → ℕ × String × Option PoolError
unfolding index_in_pool
get_mac_index index dp =
    if not (index_in_pool index dp)
    then (index, free_mac, some not_in_pool)
    else if has index dp.free
    then (index, free_mac, some index_free)
    else (index, or_empty (lookup index dp.mac), none)

unfoldable pub free_ips_remaining : DhcpPool → ℕ
free_ips_remaining dp = length dp.free

-- What one call of `GetFreeIPIndex` leaves to the run time: the order in which `range` visits the
-- keys of `free` and of `released`, and `rand.Intn`.
pub record Choice : Type 0 where
  pub free_order : List ℕ
  pub released_order : List ℕ
  pub intn : ℕ → ℕ

-- The loop that collects the free keys with their release times.
unfoldable pub released_free : DhcpPool → List ℕ → List (ℕ × ℕ)
released_free dp [] = []
released_free dp (k ∷ ks) = elim (lookup k dp.released) [
  | none ↦ released_free dp ks
  | some v ↦ if has k dp.free then (k, v) ∷ released_free dp ks else released_free dp ks
]

-- `sort.Slice` by the release time. It is not stable, and the order of the keys that it starts from
-- is arbitrary, so that any order among equal times is one that this sort gives.
unfoldable pub sort_insert : ℕ × ℕ → List (ℕ × ℕ) → List (ℕ × ℕ)
sort_insert a [] = a ∷ []
sort_insert a (b ∷ bs) = if leb a.1 b.1 then a ∷ b ∷ bs else b ∷ sort_insert a bs

unfoldable pub sort_by_value : List (ℕ × ℕ) → List (ℕ × ℕ)
sort_by_value [] = []
sort_by_value (a ∷ rest) = sort_insert a (sort_by_value rest)

-- The loop over the sorted slice, which breaks in its first round.
unfoldable pub first_key : ℕ → List (ℕ × ℕ) → ℕ
first_key available [] = available
first_key available (kv ∷ kvs) = kv.0

-- The loop over the free keys that counts `index` down.
unfoldable pub nth_key : ℕ → List ℕ → ℕ → ℕ
nth_key available [] index = available
nth_key available (k ∷ ks) zero = k
nth_key available (k ∷ ks) (suc index) = nth_key k ks index

unfoldable pub choose_available : Choice → DhcpPool → ℕ
unfolding released_free sort_insert sort_by_value first_key nth_key
choose_available c dp =
    if dp.algorithm == pos 2
    then first_key 0 (sort_by_value (released_free dp c.released_order))
    else nth_key 0 c.free_order (c.intn (length dp.free))

unfoldable pub get_free_ip_index :
    Choice → String → DhcpPool → DhcpPool × ℕ × String × Option PoolError
get_free_ip_index c mac dp =
    if length dp.free == 0
    then (dp, 0, free_mac, some pool_full)
    else let available = choose_available c dp in
      (
        record dp { free = delete available dp.free; mac = insert available mac dp.mac },
        available,
        mac,
        none,
      )
