-- ===== src/Serve/Invariant.antt =====
-- interface.go and config.go: every run of the packet path on a network, with its goroutines.
use standalone_dhcp.Prelude.{
  ℕ, ◌≡◌, refl, sym, ap, subst, inl, inr, Option, none, some, String, List, ◌∷◌, ◌++◌, Bool-cases,
  Option-cases, is_some,
}
use standalone_dhcp.Prelude.Int.{ℤ, pos}
use standalone_dhcp.Net.{IpAddr}
use standalone_dhcp.Pool.{DhcpPool, fake_mac}
use standalone_dhcp.Pool.Invariant.{IsValid}
use standalone_dhcp.Pool.Run.{reserves, frees, Reach, here, next, Reach-trans, Reach-IsValid}
use standalone_dhcp.Utils.{safe_int_to_uint64}
use standalone_dhcp.Dhcp.{
  Lib, MessageType, discover, offer, request, decline, ack, nak, release, inform,
}
use standalone_dhcp.Handler.{
  with_xid, with_hwcache, State, Answer, Timer, free_index, forget, pool_of, hwcache_delete,
  build_reply_options,
}
use standalone_dhcp.Discover.{Outcome, offers, silent, panics}
use standalone_dhcp.Discover.Offer.{IsFair}
use standalone_dhcp.Discover.Outcomes.{OutcomeFrom, choose_index-from}
use standalone_dhcp.Request.{Message, serve_request}
use standalone_dhcp.Request.Grant.{hwcache_delete-pool}
use standalone_dhcp.Request.Answers.{serve_request-IsAnswered}
use standalone_dhcp.Release.{serve_release, fire, quarantine}
use standalone_dhcp.Release.Quarantine.{serve_release_cases}
use standalone_dhcp.Serve.{
  Interface, make_offer, answer_discover, dispatch, serve_once, discover_of,
}

module _ (lib : Lib) where
  open lib use {ints}

  -- What happens to a network: a packet is served, a goroutine wakes up, an entry of a cache runs out,
  -- or the API releases a client. An entry of the cache of hardware addresses runs out before its
  -- callback is called; that delay is part of the delay of the goroutine that the callback starts.
  pub data Step (s : State lib) : State lib → Type 0 where
    serves :
        (fuel : ℕ) (i : Interface lib) (server : IpAddr) (network_ip : String) (t : MessageType)
        (m : Message lib) (a : Answer lib) (s' : State lib)
        → serve_once lib fuel i server network_ip t m s ≡ some (a, s')
        → Step s s'
    wakes :
        (now : ℕ) (t : Timer) (before after : List Timer)
        → s.timers ≡ before ++ (t ∷ after)
        → Step s (fire lib now t (record s { timers = before ++ after }))
    expires : (client : String) → Step s (hwcache_delete lib client s)
    forgets_xid : (k : String) → Step s (with_xid lib (ints.delete s.handler.xid k) s)
    forgets_transaction :
        (k : String) → Step s (record s { transactions = ints.delete s.transactions k })
    forgets_request : (k : String) → Step s (record s { requests = ints.delete s.requests k })
    -- The API shortens an entry.
    shortens :
        (client : String) (x : ℤ)
        → ints.get s.handler.hwcache client ≡ some x
        → Step s (with_hwcache lib (ints.set s.handler.hwcache client x (pos 3)) s)

  pub data Run (s : State lib) : State lib → Type 0 where
    start : Run s s
    then_ : {t u : State lib} → Run s t → Step t u → Run s u

  abbrev ResultFrom : DhcpPool → Option (Answer lib × State lib) → Type 0
  ResultFrom p none = Unit
  ResultFrom p (some (a, s)) = Reach p (pool_of lib s)

  same_pool : {p : DhcpPool} (q : DhcpPool) → q ≡ p → Reach p q
  same_pool {p} q e = subst (Reach p) (sym e) here

  make_offer-pool :
      (m : Message lib) (network_ip : String) (f : ℤ) (s : State lib)
      → pool_of lib (make_offer lib m network_ip f s).1 ≡ pool_of lib s
  unfolding make_offer
  make_offer-pool m network_ip f s =
      elim (Option-cases
        (build_reply_options lib s.handler.options m.chaddr network_ip m.client s.store)) [
          | inl panic ↦ rw (panic, make_offer) refl
          | inr ((store', options), e) ↦ rw (e, make_offer) refl
        ]

  answer_discover-from :
      (m : Message lib) (network_ip : String) (p : DhcpPool) (o : Option (Outcome (State lib)))
      → OutcomeFrom lib p o
      → ResultFrom p (answer_discover lib m network_ip o)
  answer_discover-from m network_ip p none h = tt
  answer_discover-from m network_ip p (some (offers f s)) h =
      Reach-trans h (same_pool _ (make_offer-pool m network_ip f s))
  answer_discover-from m network_ip p (some (silent s)) h = h
  answer_discover-from m network_ip p (some (panics s)) h = h

  serve_request-from :
      (m : Message lib) (network_ip : String) (s : State lib)
      → Reach (pool_of lib s) (pool_of lib (serve_request lib m network_ip s).1)
  serve_request-from m network_ip s = elim (serve_request-IsAnswered lib m network_ip s) [
    | inl (_, e) ↦ same_pool _ e
    | inr (inl (_, e)) ↦ same_pool _ e
    | inr (inr (index, (_, _, _, _, e))) ↦
        subst (Reach (pool_of lib s)) (sym e)
          (next here (reserves (safe_int_to_uint64 index) m.client))
  ]

  quarantine-from :
      (m : Message lib) (index : ℤ) (s : State lib)
      → Reach (pool_of lib s) (pool_of lib (quarantine lib m index s))
  unfolding quarantine
  quarantine-from m index s = next here (reserves (safe_int_to_uint64 index) fake_mac)

  serve_release-from :
      (m : Message lib) (s : State lib)
      → Reach (pool_of lib s) (pool_of lib (serve_release lib m s).1)
  serve_release-from m s = elim (serve_release_cases lib m s) [
    | inl e ↦ same_pool _ (ap (pool_of lib) e)
    | inr (_, _, _, e) ↦
        subst (λ t. Reach (pool_of lib s) (pool_of lib t)) (sym e) (quarantine-from m _ s)
  ]

  fire-from :
      (now : ℕ) (t : Timer) (s : State lib) → Reach (pool_of lib s) (pool_of lib (fire lib now t s))
  unfolding fire
  fire-from now (free_index delay index) s = next here (frees now index)
  fire-from now (forget client) s = same_pool _ (hwcache_delete-pool lib client s)

  module _ (fair : IsFair lib) where
    dispatch-from :
        (fuel : ℕ) (i : Interface lib) (server : IpAddr) (network_ip : String) (t : MessageType)
        (m : Message lib) (s : State lib)
        → IsValid (pool_of lib s)
        → ResultFrom (pool_of lib s) (dispatch lib fuel i server network_ip t m s)
    unfolding dispatch
    dispatch-from fuel i server network_ip discover m s v =
        answer_discover-from m network_ip (pool_of lib s) _
          (choose_index-from lib fair fuel (discover_of lib i server m) s v)
    dispatch-from fuel i server network_ip request m s v = serve_request-from m network_ip s
    dispatch-from fuel i server network_ip inform m s v = serve_request-from m network_ip s
    dispatch-from fuel i server network_ip release m s v = serve_release-from m s
    dispatch-from fuel i server network_ip decline m s v = serve_release-from m s
    dispatch-from fuel i server network_ip offer m s v = here
    dispatch-from fuel i server network_ip ack m s v = here
    dispatch-from fuel i server network_ip nak m s v = here

    serve_once-from :
        (fuel : ℕ) (i : Interface lib) (server : IpAddr) (network_ip : String) (t : MessageType)
        (m : Message lib) (s : State lib)
        → IsValid (pool_of lib s)
        → ResultFrom (pool_of lib s) (serve_once lib fuel i server network_ip t m s)
    unfolding serve_once
    serve_once-from fuel i server network_ip t m s v =
        elim (Bool-cases (is_some (ints.get s.transactions m.cache_key))) [
          | inl seen ↦ rw seen here
          | inr new ↦ rw new (
              dispatch-from fuel i server network_ip t m
                (record s { transactions = ints.set s.transactions m.cache_key (pos 1) (pos 1) }) v)
        ]

    Step-from :
        {s t : State lib}
        → IsValid (pool_of lib s)
        → Step s t
        → Reach (pool_of lib s) (pool_of lib t)
    Step-from {s} v (serves fuel i server network_ip t m a s' e) =
        subst (ResultFrom (pool_of lib s)) e (serve_once-from fuel i server network_ip t m s v)
    Step-from {s} v (wakes now t before after e) =
        fire-from now t (record s { timers = before ++ after })
    Step-from {s} v (expires client) = same_pool _ (hwcache_delete-pool lib client s)
    Step-from {s} v (forgets_xid k) = here
    Step-from {s} v (forgets_transaction k) = here
    Step-from {s} v (forgets_request k) = here
    Step-from {s} v (shortens client x e) = here

    -- From a state whose pool satisfies the invariant, and with choices that Go can make: however
    -- packets, goroutines, expiries and releases through the API follow each other on a network,
    -- its pool changes by calls of its methods alone.
    pub Run-Reach :
        {s t : State lib}
        → IsValid (pool_of lib s)
        → Run s t
        → Reach (pool_of lib s) (pool_of lib t)
    Run-Reach v start = here
    Run-Reach v (then_ r step) =
        Reach-trans (Run-Reach v r) (Step-from (Reach-IsValid v (Run-Reach v r)) step)

    -- From a state whose pool satisfies the invariant, and with choices that Go can make: however
    -- packets, goroutines, expiries and releases through the API follow each other on a network,
    -- the pool satisfies the invariant.
    pub Run-IsValid :
        {s t : State lib} → IsValid (pool_of lib s) → Run s t → IsValid (pool_of lib t)
    Run-IsValid v r = Reach-IsValid v (Run-Reach v r)
