-- ===== src/Discover/Outcomes.antt =====
-- interface.go, the case `dhcp.Discover`: however it ends, the pool changes by calls of its methods.
use standalone_dhcp.Prelude.{
  ℕ, zero, suc, inl, inr, Bool, true, false, Option, none, some, ◌==◌, string_eq, if◌then◌else◌,
  Bool-cases, Option-cases,
}
use standalone_dhcp.Prelude.Int.{ℤ, pos, negsuc, int_eq}
use standalone_dhcp.Prelude.Map.{lookup}
use standalone_dhcp.Pool.{DhcpPool, free_mac, get_mac_index, reserve_ip_index}
use standalone_dhcp.Pool.Invariant.{IsValid}
use standalone_dhcp.Pool.Run.{Reach, here, Reach-IsValid, Reach-trans}
use standalone_dhcp.Utils.{safe_int_to_uint64}
use standalone_dhcp.Dhcp.{Lib}
use standalone_dhcp.Handler.{State, pool_of, hwcache_delete}
use standalone_dhcp.Discover.{
  Request, Outcome, offers, silent, panics, Round, again, done, retry_round, retry, replace_offer,
  cached_index, choose_index,
}
use standalone_dhcp.Discover.Offer.{IsFair}
use standalone_dhcp.Request.Grant.{hwcache_delete-pool}
use standalone_dhcp.Discover.Changes.{RoundFrom, retry_round-from, reserved}

module _ (lib : Lib) where
  open lib use {ints}

  -- The pool of an outcome comes from a pool by calls of its methods.
  abbrev pub OutcomeFrom : DhcpPool → Option (Outcome (State lib)) → Type 0
  OutcomeFrom p none = Unit
  OutcomeFrom p (some (offers f s)) = Reach p (pool_of lib s)
  OutcomeFrom p (some (silent s)) = Reach p (pool_of lib s)
  OutcomeFrom p (some (panics s)) = Reach p (pool_of lib s)

  OutcomeFrom-trans :
      (p p' : DhcpPool) (o : Option (Outcome (State lib)))
      → Reach p p'
      → OutcomeFrom p' o
      → OutcomeFrom p o
  OutcomeFrom-trans p p' none h r = tt
  OutcomeFrom-trans p p' (some (offers f s)) h r = Reach-trans h r
  OutcomeFrom-trans p p' (some (silent s)) h r = Reach-trans h r
  OutcomeFrom-trans p p' (some (panics s)) h r = Reach-trans h r

  module _ (fair : IsFair lib) where
    ended :
        (fuel attempt : ℕ) (q : Request lib) (p : DhcpPool) (r : Round (State lib))
        → RoundFrom lib p r
        → ((b : Bool) (f : ℤ) (s : State lib)
            → Reach p (pool_of lib s)
            → OutcomeFrom p (retry lib fuel (suc attempt) q b f s))
        → OutcomeFrom p
            (elim r [ again b' f' s' ↦ retry lib fuel (suc attempt) q b' f' s' | done o ↦ some o ])
    ended fuel attempt q p (again b' f' s') r k = k b' f' s' r
    ended fuel attempt q p (done (offers f' s')) r k = r
    ended fuel attempt q p (done (silent s')) r k = r
    ended fuel attempt q p (done (panics s')) r k = r

    retry-from :
        (fuel attempt : ℕ) (q : Request lib) (b : Bool) (f : ℤ) (s : State lib)
        → IsValid (pool_of lib s)
        → OutcomeFrom (pool_of lib s) (retry lib fuel attempt q b f s)
    unfolding retry
    retry-from zero attempt q b f s v = tt
    retry-from (suc fuel) attempt q b f s v =
        ended fuel attempt q (pool_of lib s) (retry_round lib attempt q b f s)
          (retry_round-from lib fair attempt q b f s v)
          λ b' f' s' r.
            OutcomeFrom-trans (pool_of lib s) (pool_of lib s') _ r
              (retry-from fuel (suc attempt) q b' f' s' (Reach-IsValid v r))

    replace_offer-from :
        (q : Request lib) (f : ℤ) (s : State lib)
        → OutcomeFrom (pool_of lib s) (some (replace_offer lib q f s))
    unfolding replace_offer
    replace_offer-from q f s =
        elim (Option-cases (ints.replace s.handler.hwcache q.client f (pos 5))) [
          | inl gone ↦ rw (gone, replace_offer) here
          | inr (c, e) ↦ rw (e, replace_offer) here
        ]

    -- The pool after the entry of the cache is taken again.
    reserved_again :
        (i : ℕ) (q : Request lib) (s : State lib)
        → Reach
            (pool_of lib s)
            (reserve_ip_index i q.client (pool_of lib (hwcache_delete lib q.client s))).0
    reserved_again i q s =
        rw (hwcache_delete-pool lib q.client s) (reserved i q.client (pool_of lib s))

    vacant-from :
        (b : Bool) (fuel : ℕ) (q : Request lib) (x : ℤ) (p : DhcpPool) (s : State lib)
        → IsValid p
        → Reach p (pool_of lib s)
        → OutcomeFrom p
            (if b then some (replace_offer lib q x s) else retry lib fuel 0 q true (negsuc 0) s)
    vacant-from true fuel q x p s v r =
        OutcomeFrom-trans p (pool_of lib s) (some (replace_offer lib q x s)) r
          (replace_offer-from q x s)
    vacant-from false fuel q x p s v r =
        OutcomeFrom-trans p (pool_of lib s) (retry lib fuel 0 q true (negsuc 0) s) r
          (retry-from fuel 0 q true (negsuc 0) s (Reach-IsValid v r))

    cached_index-from :
        (fuel : ℕ) (q : Request lib) (x : ℤ) (s : State lib)
        → IsValid (pool_of lib s)
        → OutcomeFrom (pool_of lib s) (cached_index lib fuel q x s)
    unfolding cached_index
    cached_index-from fuel q x s v =
        elim (Bool-cases ((get_mac_index (safe_int_to_uint64 x) (pool_of lib s)).1 == q.client)) [
          | inl own ↦ rw own (replace_offer-from q x s)
          | inr other ↦
              elim (Bool-cases
                ((get_mac_index (safe_int_to_uint64 x) (pool_of lib s)).1 == free_mac)) [
                  | inr taken ↦ rw (other, taken) (retry-from fuel 0 q true (negsuc 0) s v)
                  | inl vacant ↦
                      rw (other, vacant)
                        (vacant-from _ fuel q x (pool_of lib s) _ v
                          (reserved_again (safe_int_to_uint64 x) q s))
                ]
        ]

    -- On a pool that satisfies the invariant, and with choices that Go can make, a DISCOVER changes
    -- the pool by calls of its methods alone, however it ends.
    pub choose_index-from :
        (fuel : ℕ) (q : Request lib) (s : State lib)
        → IsValid (pool_of lib s)
        → OutcomeFrom (pool_of lib s) (choose_index lib fuel q s)
    unfolding choose_index
    choose_index-from fuel q s v = elim (Option-cases (lookup q.client s.handler.ip_assigned)) [
      | inr (n, e) ↦ rw (e, choose_index) here
      | inl dynamic ↦ elim (Option-cases (ints.get s.handler.hwcache q.client)) [
        | inr (x, e) ↦ rw (dynamic, e, choose_index) (cached_index-from fuel q x s v)
        | inl missing ↦
            rw (dynamic, missing, choose_index) (retry-from fuel 0 q true (negsuc 0) s v)
      ]
    ]
