-- ===== src/Discover.antt =====
-- interface.go, `ServeDHCP`, the case `dhcp.Discover`: which index is offered. What follows the label
-- `retry` is `retry_round`, and each `goto retry` is one more round; what follows `reply` is
-- `make_offer` of Serve.
pub mod Pings
pub mod Settings
pub mod Offer
pub mod Rounds
pub mod Changes
pub mod Outcomes
pub mod Ends
pub mod Held
use standalone_dhcp.Prelude.{
  ℕ, zero, suc, ◌+◌, ◌-◌, ◌%◌, ◌^◌, Bool, true, false, ◌&&◌, Option, none, some, String, List, [],
  ◌∷◌, ◌==◌, nat_eq, string_eq, if◌then◌else◌, ltb, is_some,
}
use standalone_dhcp.Prelude.Int.{ℤ, pos, negsuc, int_eq}
use standalone_dhcp.Prelude.Map.{Map, lookup}
use standalone_dhcp.Net.{IpAddr, to4}
use standalone_dhcp.Convert.{Bytes}
use standalone_dhcp.Pool.{
  DhcpPool, PoolError, free_mac, fake_mac, get_mac_index, reserve_ip_index, get_free_ip_index,
  free_ips_remaining,
}
use standalone_dhcp.Utils.{
  safe_int_to_uint64, safe_uint64_to_int, safe_uint32_to_uint64, set_option_server_identifier,
}
use standalone_dhcp.Dhcp.{Lib, Dhcp4, CacheApi, World}
use standalone_dhcp.Handler.{
  State, Handler, be_uint32, with_pool, with_hwcache, with_xid, start_timer, pool_of,
  hwcache_delete, Timer, free_index,
}

-- `err == nil`.
abbrev pub is_nil : Option PoolError → Bool
is_nil none = true
is_nil (some e) = false

-- What is known at the label `reply`, or why the handler returned before.
pub data Outcome (S : Type 0) : Type 0 where
  offers : ℤ → S → Outcome S
  silent : S → Outcome S
  panics : S → Outcome S

-- How one pass of the code behind `retry` ends: by another `goto retry`, with the new values of
-- `firstTry` and `free`, or for good.
pub data Round (S : Type 0) : Type 0 where
  again : Bool → ℤ → S → Round S
  done : Outcome S → Round S

-- The requested address: `goto retry`, or a value of `free` with the pool, or a panic.
pub data Requested : Type 0 where
  refused : Requested
  kept : ℤ → DhcpPool → Requested
  faulted : Requested

-- The three cases on the address that the pool has at the requested index.
unfoldable pub try_index : String → ℕ → ℤ → DhcpPool → Requested
try_index client element free pool =
    let returned = (get_mac_index element pool).1 in
    if returned == client
    then kept (pos element) pool
    else if returned == free_mac
    then (let r = reserve_ip_index element client pool in
        if is_nil r.1 && r.2 == client then kept (pos element) r.0 else kept free r.0)
    else refused

-- `uint32(a) - uint32(b)`.
abbrev pub sub_uint32 : ℕ → ℕ → ℕ
sub_uint32 a b = (a + 2 ^ 32 - b) % 2 ^ 32

-- The block for a device that requests an address; the difference is taken in `uint32`.
unfoldable pub try_requested : String → Option Bytes → Bool → IpAddr → ℤ → DhcpPool → Requested
try_requested client none first_try start free pool = kept free pool
try_requested client (some bytes) false start free pool = kept free pool
try_requested client (some bytes) true start free pool = elim (be_uint32 bytes) [
  | none ↦ faulted
  | some wanted ↦ elim (be_uint32 (to4 start)) [
    | none ↦ faulted
    | some first ↦ try_index client (sub_uint32 wanted first) free pool
  ]
]

module _ (lib : Lib) where
  open lib use {dhcp4, ints, world}

  -- What the packet and the interface bring to every pass.
  pub record Request : Type 0 where
    pub client : String
    pub xid_text : String
    pub requested : Option Bytes
    pub server : IpAddr
    pub if_name : String

  -- `GetFreeIPIndex`, if there is no address yet; `none` is its error.
  unfoldable pub next_free : ℕ → String → ℤ → DhcpPool → Option (ℤ × DhcpPool)
  next_free attempt client free pool =
      if free == negsuc 0
      then (let r = get_free_ip_index (world.choice attempt pool) client pool in
          if is_nil r.3 then some (safe_uint64_to_int r.1, r.0) else none)
      else some (free, pool)

  -- The entries that lock the address for five seconds.
  unfoldable pub lock_offer : Request → ℤ → State lib → State lib
  lock_offer q free s =
      with_xid lib (ints.set s.handler.xid q.xid_text (pos 0) (pos 5))
        (with_hwcache lib (ints.set s.handler.hwcache q.client free (pos 5)) s)

  -- The address answered the ping: the entry goes, the index is meant to be marked, and a goroutine
  -- frees it in ten minutes.
  unfoldable pub give_up : Request → ℤ → State lib → State lib
  give_up q free s =
      let s' = hwcache_delete lib q.client s in
      start_timer lib (free_index 600 (safe_int_to_uint64 free))
        (with_pool lib (reserve_ip_index (safe_int_to_uint64 free) fake_mac (pool_of lib s')).0 s')

  abbrev or_same : ints.Cache → Option ints.Cache → ints.Cache
  or_same c none = c
  or_same c (some c') = c'

  -- The address did not answer: the entries are set for the request that follows.
  unfoldable pub confirm_offer : Request → ℤ → State lib → State lib
  confirm_offer q free s =
      with_xid lib (or_same s.handler.xid (ints.replace s.handler.xid q.xid_text (pos 1) (pos 5)))
        (with_hwcache lib (ints.set s.handler.hwcache q.client free (pos 5)) s)

  -- From the lock on. `Local` is false throughout, so that the ARP table is not asked.
  unfoldable pub check_address : ℕ → Request → ℤ → State lib → Round (State lib)
  check_address attempt q free s =
      let s' = lock_offer q free s in
      if world.ping attempt (to4 (set_option_server_identifier q.server s.handler.ip))
        (dhcp4.ip_add s.handler.start free) q.if_name
      then again false (pos 0) (give_up q free s')
      else done (offers free (confirm_offer q free s'))

  unfoldable pub take_address : ℕ → Request → Bool → ℤ → State lib → Requested → Round (State lib)
  take_address attempt q first_try free s refused = again false free s
  take_address attempt q first_try free s faulted = done (panics s)
  take_address attempt q first_try free s (kept free' pool) =
      elim (next_free attempt q.client free' pool) [
        | none ↦ done (silent (with_pool lib pool s))
        | some (free'', pool') ↦ check_address attempt q free'' (with_pool lib pool' s)
      ]

  -- One pass from the label `retry`.
  unfoldable pub retry_round : ℕ → Request → Bool → ℤ → State lib → Round (State lib)
  retry_round attempt q first_try free s =
      if ltb 0 (free_ips_remaining (pool_of lib s))
      then take_address attempt q first_try free s
          (try_requested q.client q.requested first_try s.handler.start free (pool_of lib s))
      else done (silent s)

  -- The passes, with fuel for their number.
  unfoldable pub retry : ℕ → ℕ → Request → Bool → ℤ → State lib → Option (Outcome (State lib))
  retry zero attempt q first_try free s = none
  retry (suc fuel) attempt q first_try free s = elim (retry_round attempt q first_try free s) [
    | again first_try' free' s' ↦ retry fuel (suc attempt) q first_try' free' s'
    | done o ↦ some o
  ]

  -- `hwcache.Replace`, which fails if the entry is gone; the handler then returns without a reply.
  unfoldable pub replace_offer : Request → ℤ → State lib → Outcome (State lib)
  replace_offer q free s = elim (ints.replace s.handler.hwcache q.client free (pos 5)) [
    | none ↦ silent s
    | some c ↦ offers free (with_hwcache lib c s)
  ]

  -- An entry of the cache for the client: the cases on the address that the pool has at its index.
  unfoldable pub cached_index : ℕ → Request → ℤ → State lib → Option (Outcome (State lib))
  cached_index fuel q x s =
      let index = safe_int_to_uint64 x in
      let returned = (get_mac_index index (pool_of lib s)).1 in
      if returned == q.client
      then some (replace_offer q x s)
      else if returned == free_mac
      then (let s' = hwcache_delete lib q.client s in
          let r = reserve_ip_index index q.client (pool_of lib s') in
          let s'' = with_pool lib r.0 s' in
          if is_nil r.1 && r.2 == q.client
          then some (replace_offer q x s'')
          else retry fuel 0 q true (negsuc 0) s'')
      else retry fuel 0 q true (negsuc 0) s

  -- The whole case up to the label `reply`: a static index, or a cached one, or a new one.
  unfoldable pub choose_index : ℕ → Request → State lib → Option (Outcome (State lib))
  choose_index fuel q s = elim (lookup q.client s.handler.ip_assigned) [
    | some position ↦ some (offers (pos position) s)
    | none ↦ elim (ints.get s.handler.hwcache q.client) [
      | some x ↦ cached_index fuel q x s
      | none ↦ retry fuel 0 q true (negsuc 0) s
    ]
  ]
