-- ===== src/Discover/Held.antt =====
-- interface.go, the case `dhcp.Discover`: whose index a DISCOVER offers.
use standalone_dhcp.Prelude.{
  ℕ, zero, suc, ◌≤◌, ◌≡◌, ◌≢◌, refl, sym, subst, inl, inr, Bool, true, false, Option, none, some,
  String, ◌==◌, string_eq, if◌then◌else◌, ltb, Bool-cases, Option-cases, arith,
}
use standalone_dhcp.Prelude.Int.{ℤ, pos, negsuc}
use standalone_dhcp.Prelude.Map.{lookup}
use standalone_dhcp.Net.{IpAddr}
use standalone_dhcp.Pool.{DhcpPool, free_mac, get_mac_index, reserve_ip_index, free_ips_remaining}
use standalone_dhcp.Pool.Invariant.{IsValid, reserve_ip_index-IsValid, reserve_ip_index-capacity}
use standalone_dhcp.Pool.View.{view, held}
use standalone_dhcp.Utils.{max_int, safe_int_to_uint64}
use standalone_dhcp.Dhcp.{Lib}
use standalone_dhcp.Handler.{State, pool_of, hwcache_delete}
use standalone_dhcp.Discover.{
  Requested, refused, kept, faulted, Request, Outcome, offers, silent, panics, Round, again, done,
  take_address, retry_round, retry, replace_offer, cached_index, choose_index,
}
use standalone_dhcp.Discover.Offer.{
  IsHeld, IsNew, IsFair, try_requested-IsNew, get_mac_index-IsHeld, reserve_ip_index-IsHeld,
}
use standalone_dhcp.Discover.Rounds.{GoodRound, take_address-GoodRound}
use standalone_dhcp.Discover.Ends.{kept-Ended}
use standalone_dhcp.Request.Grant.{hwcache_delete-pool}

-- The pool holds the index for the client.
abbrev pub Holds : String → DhcpPool → ℤ → Type 0
Holds client p f = view p (safe_int_to_uint64 f) ≡ held client

-- The pool satisfies the invariant, and an `int` can hold its indices.
abbrev pub IsSized : DhcpPool → Type 0
IsSized p = IsValid p × (p.capacity ≤ max_int)

IsHeld-view :
    (client : String) (p : DhcpPool) (i : ℕ) → IsHeld client p (pos i) → view p i ≡ held client
IsHeld-view client p i h =
    let same : h.index ≡ i = ground (arith, h.number) in
    subst (λ n. view p n ≡ held client) same h.slot

IsHeld-Holds : (client : String) (p : DhcpPool) (f : ℤ) → IsHeld client p f → Holds client p f
unfolding safe_int_to_uint64
IsHeld-Holds client p (pos n) h = ground (arith, IsHeld-view client p n h)
IsHeld-Holds client p (negsuc n) h = absurd (ground (arith, h.number))

module _ (lib : Lib) (fair : IsFair lib)
    (quiet : (n : ℕ) (a b : IpAddr) (name : String) → lib.world.ping n a b name ≡ false)
    (q : Request lib) (real : q.client ≢ free_mac) where
  open lib use {ints}

  abbrev RoundHolds : Round (State lib) → Type 0
  RoundHolds (again b f s) = (f ≡ negsuc 0) × IsSized (pool_of lib s)
  RoundHolds (done (offers f s)) = Holds q.client (pool_of lib s) f
  RoundHolds (done (silent s)) = Unit
  RoundHolds (done (panics s)) = Unit

  -- An offer is of an index that the pool holds for the client.
  abbrev pub OfferHolds : Option (Outcome (State lib)) → Type 0
  OfferHolds none = Unit
  OfferHolds (some (offers f s)) = Holds q.client (pool_of lib s) f
  OfferHolds (some (silent s)) = Unit
  OfferHolds (some (panics s)) = Unit

  good-RoundHolds :
      (r : Round (State lib)) (o : Outcome (State lib))
      → r ≡ done o
      → GoodRound lib q r
      → RoundHolds r
  good-RoundHolds (again b f s) o e h = absurd (ground (arith, e))
  good-RoundHolds (done (offers f s)) o e h = IsHeld-Holds q.client (pool_of lib s) f h.held_index
  good-RoundHolds (done (silent s)) o e h = tt
  good-RoundHolds (done (panics s)) o e h = tt

  take_address-RoundHolds :
      (attempt : ℕ) (b : Bool) (s : State lib) (r : Requested)
      → IsSized (pool_of lib s)
      → ((f : ℤ) (p : DhcpPool) → r ≡ kept f p → IsNew q.client p f)
      → RoundHolds (take_address lib attempt q b (negsuc 0) s r)
  unfolding take_address
  take_address-RoundHolds attempt b s refused v h = (refl, v)
  take_address-RoundHolds attempt b s faulted v h = tt
  take_address-RoundHolds attempt b s (kept f p) v h =
      let (o, e) = kept-Ended lib quiet attempt q b (negsuc 0) f s p in
      good-RoundHolds (take_address lib attempt q b (negsuc 0) s (kept f p)) o e
        (take_address-GoodRound lib fair attempt q b s (kept f p) h)

  retry_round-RoundHolds :
      (attempt : ℕ) (b : Bool) (s : State lib)
      → IsSized (pool_of lib s)
      → RoundHolds (retry_round lib attempt q b (negsuc 0) s)
  unfolding retry_round
  retry_round-RoundHolds attempt b s v =
      elim (Bool-cases (ltb 0 (free_ips_remaining (pool_of lib s)))) [
        | inr full ↦ rw full tt
        | inl room ↦ rw room (
            take_address-RoundHolds attempt b s _ v λ f p e.
              try_requested-IsNew q.client real q.requested b s.handler.start (pool_of lib s) p f
                v.0 v.1 e)
      ]

  ended :
      (fuel attempt : ℕ) (r : Round (State lib))
      → RoundHolds r
      → ((b : Bool) (s : State lib)
          → IsSized (pool_of lib s)
          → OfferHolds (retry lib fuel (suc attempt) q b (negsuc 0) s))
      → OfferHolds
          (elim r [ again b' f' s' ↦ retry lib fuel (suc attempt) q b' f' s' | done o ↦ some o ])
  ended fuel attempt (again b f s) h k =
      subst (λ g. OfferHolds (retry lib fuel (suc attempt) q b g s)) (sym h.0) (k b s h.1)
  ended fuel attempt (done (offers f s)) h k = h
  ended fuel attempt (done (silent s)) h k = tt
  ended fuel attempt (done (panics s)) h k = tt

  retry-OfferHolds :
      (fuel attempt : ℕ) (b : Bool) (s : State lib)
      → IsSized (pool_of lib s)
      → OfferHolds (retry lib fuel attempt q b (negsuc 0) s)
  unfolding retry
  retry-OfferHolds zero attempt b s v = tt
  retry-OfferHolds (suc fuel) attempt b s v =
      ended fuel attempt (retry_round lib attempt q b (negsuc 0) s)
        (retry_round-RoundHolds attempt b s v)
        λ b' s' v'. retry-OfferHolds fuel (suc attempt) b' s' v'

  replace_offer-OfferHolds :
      (f : ℤ) (s : State lib)
      → Holds q.client (pool_of lib s) f
      → OfferHolds (some (replace_offer lib q f s))
  unfolding replace_offer
  replace_offer-OfferHolds f s h =
      elim (Option-cases (ints.replace s.handler.hwcache q.client f (pos 5))) [
        | inl gone ↦ rw (gone, replace_offer) tt
        | inr (c, e) ↦ rw (e, replace_offer) h
      ]

  vacant-OfferHolds :
      (b : Bool) (fuel : ℕ) (x : ℤ) (s : State lib)
      → IsSized (pool_of lib s)
      → (b ≡ true → Holds q.client (pool_of lib s) x)
      → OfferHolds
          (if b then some (replace_offer lib q x s) else retry lib fuel 0 q true (negsuc 0) s)
  vacant-OfferHolds true fuel x s v h = replace_offer-OfferHolds x s (h refl)
  vacant-OfferHolds false fuel x s v h = retry-OfferHolds fuel 0 true s v

  cached_index-OfferHolds :
      (fuel : ℕ) (x : ℤ) (s : State lib)
      → IsSized (pool_of lib s)
      → OfferHolds (cached_index lib fuel q x s)
  unfolding cached_index
  cached_index-OfferHolds fuel x s v =
      let i : ℕ = safe_int_to_uint64 x in
      let same = hwcache_delete-pool lib q.client s in
      let p : DhcpPool = pool_of lib (hwcache_delete lib q.client s) in
      elim (Bool-cases ((get_mac_index i (pool_of lib s)).1 == q.client)) [
        | inl own ↦ rw own (
            replace_offer-OfferHolds x s (
              IsHeld-view q.client (pool_of lib s) i (
                get_mac_index-IsHeld q.client i (pool_of lib s) real
                  ((string_eq.equal_iff (get_mac_index i (pool_of lib s)).1 q.client).0 own))))
        | inr other ↦ elim (Bool-cases ((get_mac_index i (pool_of lib s)).1 == free_mac)) [
          | inr taken ↦ rw (other, taken) (retry-OfferHolds fuel 0 true s v)
          | inl vacant ↦
              rw (other, vacant)
                (vacant-OfferHolds _ fuel x _
                  (
                    reserve_ip_index-IsValid i q.client p (rw same v.0),
                    rw reserve_ip_index-capacity (rw same v.1),
                  )
                  λ e.
                    IsHeld-view q.client (reserve_ip_index i q.client p).0 i
                      (reserve_ip_index-IsHeld q.client i p (ground (arith, e))))
        ]
      ]

  -- If no address answers its ping, with choices that Go can make, for a client other than
  -- 00:00:00:00:00:00 and without a static index, on a pool that satisfies the invariant and whose
  -- capacity fits an `int`: an index that a DISCOVER offers is held for the client by the pool
  -- afterwards.
  pub choose_index-OfferHolds :
      (fuel : ℕ) (s : State lib)
      → IsSized (pool_of lib s)
      → lookup q.client s.handler.ip_assigned ≡ none
      → OfferHolds (choose_index lib fuel q s)
  unfolding choose_index
  choose_index-OfferHolds fuel s v dynamic =
      elim (Option-cases (ints.get s.handler.hwcache q.client)) [
        | inr (x, e) ↦ rw (dynamic, e, choose_index) (cached_index-OfferHolds fuel x s v)
        | inl missing ↦ rw (dynamic, missing, choose_index) (retry-OfferHolds fuel 0 true s v)
      ]
