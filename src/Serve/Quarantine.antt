-- ===== src/Serve/Quarantine.antt =====
-- interface.go: the goroutine of ten minutes that a RELEASE or a DECLINE starts.
use standalone_dhcp.Prelude.{
  ℕ, ◌<◌, ◌≡◌, ◌≢◌, refl, sym, ap, ◌∙◌, subst, true, false, List, ◌∷◌, ◌++◌, ◌==◌, some, nat_eq,
  string_eq, length, beq_self, lt→ltb, arith, Bool-cases, inl, inr,
}
use standalone_dhcp.Prelude.Int.{ℤ, int_eq}
use standalone_dhcp.Prelude.Map.{has}
use standalone_dhcp.Net.{to4}
use standalone_dhcp.Utils.{safe_int_to_uint64}
use standalone_dhcp.Pool.{DhcpPool, free_mac, get_mac_index}
use standalone_dhcp.Pool.Invariant.{IsValid}
use standalone_dhcp.Pool.Run.{Reach-capacity}
use standalone_dhcp.Pool.View.{view, free, let_go, view-free_ip_index}
use standalone_dhcp.Dhcp.{Lib}
use standalone_dhcp.Handler.{State, Timer, free_index, forget, pool_of}
use standalone_dhcp.Discover.Offer.{IsFair, get_mac_index-IsHeld}
use standalone_dhcp.Request.{Message, requested_ip, lease_num, in_range}
use standalone_dhcp.Release.{serve_release, give_back, quarantine, fire}
use standalone_dhcp.Release.Quarantine.{released_inside, quarantine-pool}
use standalone_dhcp.Serve.Invariant.{Run, Run-Reach}

-- An index of the pool is free once it is let go.
let_go-free : (i : ℕ) (p : DhcpPool) → i < p.capacity → let_go (view p i) ≡ free
let_go-free i p inside = elim (Bool-cases (has i p.free)) [
  | inl vacant ↦ rw (lt→ltb i p.capacity inside, vacant) refl
  | inr taken ↦ rw (lt→ltb i p.capacity inside, taken) refl
]

module _ (lib : Lib) where
  open lib use {ints}

  -- A client gives back the address of a lease: it is one of the range, and the cache and the pool
  -- have its index for the client.
  pub record IsReturn (m : Message lib) (s : State lib) : Type 0 where
    pub formed : (length (to4 (requested_ip lib m)) == 0) ≡ false
    pub inside : in_range lib (lease_num lib (requested_ip lib m) s) s ≡ true
    pub cached : ints.get s.handler.hwcache m.client ≡ some (lease_num lib (requested_ip lib m) s)
    pub owned :
        (get_mac_index
          (safe_int_to_uint64 (lease_num lib (requested_ip lib m) s))
          (pool_of lib s)).1
        ≡ m.client

  abbrev pub returned_index : Message lib → State lib → ℕ
  returned_index m s = safe_int_to_uint64 (lease_num lib (requested_ip lib m) s)

  return-quarantine :
      (m : Message lib) (s : State lib)
      → IsReturn m s
      → (serve_release lib m s).1 ≡ quarantine lib m (lease_num lib (requested_ip lib m) s) s
  unfolding give_back
  return-quarantine m s r =
      let index = lease_num lib (requested_ip lib m) s in
      released_inside lib m s r.formed r.inside
      ∙ rw (r.cached, give_back, beq_self index, r.owned, beq_self m.client) refl

  quarantine-timers :
      (m : Message lib) (index : ℤ) (s : State lib)
      → (quarantine lib m index s).timers
        ≡ forget m.client ∷ free_index 600 (safe_int_to_uint64 index) ∷ s.timers
  unfolding quarantine
  quarantine-timers m index s = refl

  module _ (fair : IsFair lib) where
    -- With choices that Go can make, for a client other than 00:00:00:00:00:00 that gives back the
    -- address of its lease, on a pool that satisfies the invariant: a RELEASE or a DECLINE starts a
    -- goroutine of ten minutes for the index of the address. However packets, goroutines, expiries
    -- and releases through the API follow until that goroutine runs, the index is free right after
    -- it.
    pub serve_release_frees :
        (m : Message lib) (s t : State lib) (before after : List Timer) (now : ℕ)
        → m.client ≢ free_mac
        → IsValid (pool_of lib s)
        → IsReturn m s
        → Run lib (serve_release lib m s).1 t
        → t.timers ≡ before ++ (free_index 600 (returned_index m s) ∷ after)
        → ((serve_release lib m s).1.timers
            ≡ forget m.client ∷ free_index 600 (returned_index m s) ∷ s.timers)
          × (view
                (pool_of lib (
                  fire lib now
                    (free_index 600 (returned_index m s))
                    (record t { timers = before ++ after })))
                (returned_index m s)
              ≡ free)
    unfolding fire
    serve_release_frees m s t before after now real v r run asleep =
        let e = return-quarantine m s r in
        let index = lease_num lib (requested_ip lib m) s in
        let i = returned_index m s in
        let h = get_mac_index-IsHeld m.client i (pool_of lib s) real r.owned in
        let same : pool_of lib (serve_release lib m s).1 ≡ pool_of lib s =
          ap (pool_of lib) e ∙ quarantine-pool lib m index s real r.owned in
        let kept = Reach-capacity (Run-Reach lib fair (subst IsValid (sym same) v) run) in
        let size = ap (λ (p : DhcpPool). p.capacity) same in
        (
          ap (λ (t : State lib). t.timers) e ∙ quarantine-timers m index s,
          (view-free_ip_index now i (pool_of lib t)).0 i
              ∙ rw (beq_self i)
                  (let_go-free i (pool_of lib t) (ground (arith, h.number, h.inside, kept, size))),
        )
