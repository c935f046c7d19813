-- ===== src/Discover/Ends.antt =====
-- interface.go, the case `dhcp.Discover`: the passes end if no address answers its ping.
use standalone_dhcp.Prelude.{
  ℕ, ◌≡◌, refl, ap, ◌∙◌, inl, inr, Bool, true, false, Option, none, some, String, ◌==◌, string_eq,
  if◌then◌else◌, ltb, Bool-cases, Option-cases, suc, arith,
}
use standalone_dhcp.Prelude.Int.{ℤ, negsuc, int_eq}
use standalone_dhcp.Prelude.Map.{lookup}
use standalone_dhcp.Net.{IpAddr, to4}
use standalone_dhcp.Convert.{Bytes}
use standalone_dhcp.Pool.{DhcpPool, free_mac, get_mac_index, free_ips_remaining}
use standalone_dhcp.Utils.{safe_int_to_uint64, set_option_server_identifier}
use standalone_dhcp.Dhcp.{Lib}
use standalone_dhcp.Handler.{State, pool_of, with_pool}
use standalone_dhcp.Discover.{
  Requested, refused, kept, faulted, try_requested, Request, next_free, Outcome, Round, again, done,
  check_address, take_address, retry_round, retry, cached_index, choose_index,
}
use standalone_dhcp.Discover.Rounds.{retry-again}

module _ (lib : Lib)
    (quiet : (n : ℕ) (a b : IpAddr) (name : String) → lib.world.ping n a b name ≡ false) where
  open lib use {ints, world, dhcp4}

  abbrev pub Ended : Round (State lib) → Type 0
  Ended r = (o : Outcome (State lib)) × (r ≡ done o)

  check_address-Ended :
      (attempt : ℕ) (q : Request lib) (f : ℤ) (s : State lib)
      → Ended (check_address lib attempt q f s)
  unfolding check_address
  check_address-Ended attempt q f s =
      rw
        (quiet attempt (to4 (set_option_server_identifier q.server s.handler.ip))
          (dhcp4.ip_add s.handler.start f) q.if_name)
        (_, refl)

  pub kept-Ended :
      (attempt : ℕ) (q : Request lib) (b : Bool) (f f' : ℤ) (s : State lib) (p : DhcpPool)
      → Ended (take_address lib attempt q b f s (kept f' p))
  unfolding take_address
  kept-Ended attempt q b f f' s p = elim (Option-cases (next_free lib attempt q.client f' p)) [
    | inl full ↦ rw (full, take_address) (_, refl)
    | inr ((f'', p'), e) ↦
        rw (e, take_address) (check_address-Ended attempt q f'' (with_pool lib p' s))
  ]

  asks-Ended :
      (attempt : ℕ) (q : Request lib) (b : Option Bytes) (f : ℤ) (s : State lib)
      → Ended (
          take_address lib attempt q false f s
            (try_requested q.client b false s.handler.start f (pool_of lib s)))
  unfolding try_requested
  asks-Ended attempt q none f s = kept-Ended attempt q false f f s (pool_of lib s)
  asks-Ended attempt q (some b) f s = kept-Ended attempt q false f f s (pool_of lib s)

  -- A pass that is not the first try ends.
  later-Ended :
      (attempt : ℕ) (q : Request lib) (f : ℤ) (s : State lib)
      → Ended (retry_round lib attempt q false f s)
  unfolding retry_round
  later-Ended attempt q f s = elim (Bool-cases (ltb 0 (free_ips_remaining (pool_of lib s)))) [
    | inr full ↦ rw full (_, refl)
    | inl room ↦ rw room (asks-Ended attempt q q.requested f s)
  ]

  -- A first try ends, or the next pass is not a first try.
  abbrev Once : Round (State lib) → Type 0
  Once (again b f s) = b ≡ false
  Once (done o) = Unit

  done-Once : (r : Round (State lib)) → Ended r → Once r
  done-Once (again b f s) (o, e) = absurd (ground arith)
  done-Once (done o) h = tt

  asked-Once :
      (attempt : ℕ) (q : Request lib) (b : Bool) (f : ℤ) (s : State lib) (r : Requested)
      → Once (take_address lib attempt q b f s r)
  unfolding take_address
  asked-Once attempt q b f s refused = refl
  asked-Once attempt q b f s faulted = tt
  asked-Once attempt q b f s (kept f' p) = done-Once _ (kept-Ended attempt q b f f' s p)

  retry_round-Once :
      (attempt : ℕ) (q : Request lib) (b : Bool) (f : ℤ) (s : State lib)
      → Once (retry_round lib attempt q b f s)
  unfolding retry_round
  retry_round-Once attempt q b f s =
      elim (Bool-cases (ltb 0 (free_ips_remaining (pool_of lib s)))) [
        | inr full ↦ rw full tt
        | inl room ↦ rw room (asked-Once attempt q b f s _)
      ]

  retry-done :
      (fuel attempt : ℕ) (q : Request lib) (b : Bool) (f : ℤ) (s : State lib)
      (o : Outcome (State lib))
      → retry_round lib attempt q b f s ≡ done o
      → retry lib (suc fuel) attempt q b f s ≡ some o
  unfolding retry
  retry-done fuel attempt q b f s o e = rw (e, retry) refl

  retry-cases :
      (attempt : ℕ) (q : Request lib) (b : Bool) (f : ℤ) (s : State lib) (r : Round (State lib))
      → retry_round lib attempt q b f s ≡ r
      → Once r
      → (o : Outcome (State lib)) × (retry lib 2 attempt q b f s ≡ some o)
  retry-cases attempt q b f s (done o) e h = (o, retry-done 1 attempt q b f s o e)
  retry-cases attempt q b f s (again b' f' s') e h =
      let (o, e') = later-Ended (suc attempt) q f' s' in
      (
        o,
        retry-again lib 1 attempt q b false f f' s s' (e ∙ ap (λ c. again c f' s') h)
            ∙ retry-done 0 (suc attempt) q false f' s' o e',
      )

  retry_ends :
      (attempt : ℕ) (q : Request lib) (b : Bool) (f : ℤ) (s : State lib)
      → (o : Outcome (State lib)) × (retry lib 2 attempt q b f s ≡ some o)
  retry_ends attempt q b f s =
      retry-cases attempt q b f s (retry_round lib attempt q b f s) refl
        (retry_round-Once attempt q b f s)

  branch_ends :
      (b : Bool) (q : Request lib) (o : Outcome (State lib)) (f : ℤ) (s : State lib)
      → (o' : Outcome (State lib)) × ((if b then some o else retry lib 2 0 q true f s) ≡ some o')
  branch_ends true q o f s = (o, refl)
  branch_ends false q o f s = retry_ends 0 q true f s

  cached_index_ends :
      (q : Request lib) (x : ℤ) (s : State lib)
      → (o : Outcome (State lib)) × (cached_index lib 2 q x s ≡ some o)
  unfolding cached_index
  cached_index_ends q x s =
      elim (Bool-cases ((get_mac_index (safe_int_to_uint64 x) (pool_of lib s)).1 == q.client)) [
        | inl own ↦ rw own (_, refl)
        | inr other ↦
            elim (Bool-cases
              ((get_mac_index (safe_int_to_uint64 x) (pool_of lib s)).1 == free_mac)) [
                | inr taken ↦ rw (other, taken) (retry_ends 0 q true (negsuc 0) s)
                | inl vacant ↦ rw (other, vacant) (branch_ends _ q _ (negsuc 0) _)
              ]
      ]

  -- If no address answers its ping, two passes are enough for every DISCOVER: the search for an
  -- index ends.
  pub choose_index_ends :
      (q : Request lib) (s : State lib)
      → (o : Outcome (State lib)) × (choose_index lib 2 q s ≡ some o)
  unfolding choose_index
  choose_index_ends q s = elim (Option-cases (lookup q.client s.handler.ip_assigned)) [
    | inr (n, e) ↦ rw (e, choose_index) (_, refl)
    | inl dynamic ↦ elim (Option-cases (ints.get s.handler.hwcache q.client)) [
      | inr (x, e) ↦ rw (dynamic, e, choose_index) (cached_index_ends q x s)
      | inl missing ↦ rw (dynamic, missing, choose_index) (retry_ends 0 q true (negsuc 0) s)
    ]
  ]
