-- ===== src/Discover/Rounds.antt =====
-- interface.go: what the passes from `retry` end with, and when they end.
use standalone_dhcp.Prelude.{
  ℕ, zero, suc, ◌≤◌, ◌<◌, ◌≡◌, ◌≢◌, inl, inr, refl, ap, ◌∙◌, Bool, true, false, Option, none, some,
  String, List, nat_eq, string_eq, if◌then◌else◌, ltb, arith, Bool-cases, Option-cases, length,
  beq_self, lt→ltb,
}
use standalone_dhcp.Prelude.Int.{ℤ, pos, negsuc, int_eq}
use standalone_dhcp.Prelude.Map.{delete, length-delete-le, delete-delete}
use standalone_dhcp.Net.{IpAddr, to4}
use standalone_dhcp.Pool.{DhcpPool, free_mac, fake_mac, reserve_ip_index, free_ips_remaining}
use standalone_dhcp.Pool.Invariant.{IsValid}
use standalone_dhcp.Utils.{max_int, safe_int_to_uint64, set_option_server_identifier}
use standalone_dhcp.Dhcp.{Lib}
use standalone_dhcp.Handler.{State, pool_of, with_pool, hwcache_delete}
use standalone_dhcp.Discover.{
  Requested, refused, kept, faulted, try_requested, Request, next_free, offers, silent, panics,
  Round, again, done, lock_offer, give_up, confirm_offer, check_address, take_address, retry_round,
  retry,
}
use standalone_dhcp.Discover.Offer.{IsHeld, IsNew, IsFair, try_requested-IsNew, next_free-IsHeld}
use standalone_dhcp.Request.Grant.{hwcache_delete-pool}

module _ (lib : Lib) where
  open lib use {ints, world, dhcp4}

  -- What is known of an offer: the index is held for the client, and the cache has it for the request
  -- that follows.
  pub record IsOffer (q : Request lib) (f : ℤ) (s : State lib) : Type 0 where
    pub held_index : IsHeld q.client (pool_of lib s) f
    pub cached : ints.get s.handler.hwcache q.client ≡ some f
    pub valid : IsValid (pool_of lib s)

  -- What is claimed of the end of a pass.
  abbrev pub GoodRound : Request lib → Round (State lib) → Type 0
  GoodRound q (again first_try f s) = Unit
  GoodRound q (done (offers f s)) = IsOffer q f s
  GoodRound q (done (silent s)) = Unit
  GoodRound q (done (panics s)) = Unit

  check_address-GoodRound :
      (attempt : ℕ) (q : Request lib) (f : ℤ) (s : State lib)
      → IsHeld q.client (pool_of lib s) f
      → IsValid (pool_of lib s)
      → GoodRound q (check_address lib attempt q f s)
  unfolding check_address confirm_offer lock_offer
  check_address-GoodRound attempt q f s h v =
      let t : State lib = lock_offer lib q f s in
      let cached : ints.get (ints.set t.handler.hwcache q.client f (pos 5)) q.client ≡ some f =
        ints.get-set t.handler.hwcache q.client f (pos 5) q.client
        ∙ ap (λ b. if b then some f else ints.get t.handler.hwcache q.client) (beq_self q.client) in
      elim (Bool-cases (
        world.ping attempt (to4 (set_option_server_identifier q.server s.handler.ip))
          (dhcp4.ip_add s.handler.start f) q.if_name)) [
            | inl answered ↦ rw answered tt
            | inr quiet ↦ rw quiet (record { held_index = h; cached = cached; valid = v })
          ]

  module _ (fair : IsFair lib) where
    pub take_address-GoodRound :
        (attempt : ℕ) (q : Request lib) (first_try : Bool) (s : State lib) (r : Requested)
        → ((f : ℤ) (p : DhcpPool) → r ≡ kept f p → IsNew q.client p f)
        → GoodRound q (take_address lib attempt q first_try (negsuc 0) s r)
    unfolding take_address
    take_address-GoodRound attempt q first_try s refused h = tt
    take_address-GoodRound attempt q first_try s faulted h = tt
    take_address-GoodRound attempt q first_try s (kept f p) h =
        elim (Option-cases (next_free lib attempt q.client f p)) [
          | inl full ↦ rw (full, take_address) tt
          | inr ((f', p'), e) ↦
              let (good, valid) =
                next_free-IsHeld lib fair attempt q.client f f' p p' (h f p refl) e in
              rw (e, take_address)
                (check_address-GoodRound attempt q f' (with_pool lib p' s) good valid)
        ]

    -- For a client other than 00:00:00:00:00:00, a pool that satisfies the invariant and whose
    -- capacity fits an `int`, and choices that Go can make: a pass that begins with no index, as
    -- the first one does, and ends at the label `reply` offers an index of the pool that is held
    -- for the client, the cache has it for the client, and the pool satisfies the invariant.
    pub retry_round-GoodRound :
        (attempt : ℕ) (q : Request lib) (first_try : Bool) (s : State lib)
        → q.client ≢ free_mac
        → IsValid (pool_of lib s)
        → (pool_of lib s).capacity ≤ max_int
        → GoodRound q (retry_round lib attempt q first_try (negsuc 0) s)
    unfolding retry_round
    retry_round-GoodRound attempt q first_try s real v small =
        elim (Bool-cases (ltb 0 (free_ips_remaining (pool_of lib s)))) [
          | inr full ↦ rw full tt
          | inl room ↦ rw room (
              take_address-GoodRound attempt q first_try s _ λ f p e.
                try_requested-IsNew q.client real q.requested first_try s.handler.start
                  (pool_of lib s) p f v small e)
        ]

  try_requested-later :
      (client : String) (bytes : Option (List ℕ)) (start : IpAddr) (f : ℤ) (p : DhcpPool)
      → try_requested client bytes false start f p ≡ kept f p
  unfolding try_requested
  try_requested-later client none start f p = refl
  try_requested-later client (some b) start f p = refl

  next_free-later :
      (attempt n : ℕ) (client : String) (p : DhcpPool)
      → next_free lib attempt client (pos n) p ≡ some (pos n, p)
  unfolding next_free
  next_free-later attempt n client p = ground arith

  take_address-later :
      (attempt n : ℕ) (q : Request lib) (s : State lib)
      → take_address lib attempt q false (pos n) s (kept (pos n) (pool_of lib s))
        ≡ check_address lib attempt q (pos n) s
  unfolding take_address
  take_address-later attempt n q s =
      rw (next_free-later attempt n q.client (pool_of lib s), take_address) refl

  -- A later pass with an index in hand checks that index.
  later_pass :
      (attempt n : ℕ) (q : Request lib) (s : State lib)
      → 0 < free_ips_remaining (pool_of lib s)
      → retry_round lib attempt q false (pos n) s ≡ check_address lib attempt q (pos n) s
  unfolding retry_round
  later_pass attempt n q s room =
      rw
        (
          lt→ltb 0 (free_ips_remaining (pool_of lib s)) room,
          try_requested-later q.client q.requested s.handler.start (pos n) (pool_of lib s),
        )
        (take_address-later attempt n q s)

  -- A later pass with 0 in `free`, if there are free indices and the address of index 0 does not
  -- answer: index 0 is offered, and the pool stays as it is, whoever holds index 0.
  pub retry_round_after_ping :
      (attempt : ℕ) (q : Request lib) (s : State lib)
      → 0 < free_ips_remaining (pool_of lib s)
      → world.ping attempt
          (to4 (set_option_server_identifier q.server s.handler.ip))
          (dhcp4.ip_add s.handler.start (pos 0))
          q.if_name
        ≡ false
      → (s' : State lib) × (retry_round lib attempt q false (pos 0) s ≡ done (offers (pos 0) s'))
        × (pool_of lib s' ≡ pool_of lib s)
  unfolding check_address lock_offer confirm_offer
  retry_round_after_ping attempt q s room quiet = (
    confirm_offer lib q (pos 0) (lock_offer lib q (pos 0) s),
    later_pass attempt 0 q s room ∙ rw quiet refl,
    refl,
  )

  -- Free indices besides index 0.
  abbrev pub HasOthers : State lib → Type 0
  HasOthers s = 0 < length (delete 0 (pool_of lib s).free)

  HasOthers-room : (s : State lib) → HasOthers s → 0 < free_ips_remaining (pool_of lib s)
  unfolding free_ips_remaining
  HasOthers-room s h = omega (arith, length-delete-le 0 (pool_of lib s).free)

  reserve_zero-free :
      (m : String) (p : DhcpPool) → delete 0 (reserve_ip_index 0 m p).0.free ≡ delete 0 p.free
  unfolding reserve_ip_index
  reserve_zero-free m p = ground (arith, delete-delete 0 p.free)

  give_up-HasOthers :
      (q : Request lib) (s : State lib) → HasOthers s → HasOthers (give_up lib q (pos 0) s)
  unfolding give_up safe_int_to_uint64
  give_up-HasOthers q s h =
      rw
        (
          reserve_zero-free fake_mac (pool_of lib (hwcache_delete lib q.client s)),
          hwcache_delete-pool lib q.client s,
        )
        h

  answered :
      (attempt : ℕ) (q : Request lib) (s : State lib)
      → ((n : ℕ) (a b : IpAddr) (name : String) → world.ping n a b name ≡ true)
      → check_address lib attempt q (pos 0) s
        ≡ again false (pos 0) (give_up lib q (pos 0) (lock_offer lib q (pos 0) s))
  unfolding check_address
  answered attempt q s answers =
      rw
        (answers attempt (to4 (set_option_server_identifier q.server s.handler.ip))
          (dhcp4.ip_add s.handler.start (pos 0)) q.if_name)
        refl

  pub retry-again :
      (fuel attempt : ℕ) (q : Request lib) (b b' : Bool) (f f' : ℤ) (s s' : State lib)
      → retry_round lib attempt q b f s ≡ again b' f' s'
      → retry lib (suc fuel) attempt q b f s ≡ retry lib fuel (suc attempt) q b' f' s'
  unfolding retry
  retry-again fuel attempt q b b' f f' s s' e = rw (e, retry) refl

  -- If every ping is answered, and there are free indices besides index 0, no number of later
  -- passes with 0 in `free` ends.
  pub retry_never_ends :
      (fuel attempt : ℕ) (q : Request lib) (s : State lib)
      → ((n : ℕ) (a b : IpAddr) (name : String) → world.ping n a b name ≡ true)
      → HasOthers s
      → retry lib fuel attempt q false (pos 0) s ≡ none
  unfolding retry lock_offer
  retry_never_ends zero attempt q s answers h = refl
  retry_never_ends (suc fuel) attempt q s answers h =
      retry-again fuel attempt q false false (pos 0) (pos 0) s _
        (later_pass attempt 0 q s (HasOthers-room s h) ∙ answered attempt q s answers)
      ∙ retry_never_ends fuel (suc attempt) q _ answers
          (give_up-HasOthers q (lock_offer lib q (pos 0) s) h)
