-- ===== src/Serve/Once.antt =====
-- interface.go: the cases of `ServeDHCP` leave the cache of transactions as it is.
use standalone_dhcp.Prelude.{
  ℕ, zero, suc, ◌≡◌, refl, subst, inl, inr, Bool, true, false, Option, none, some, String, ◌==◌,
  string_eq, nat_eq, if◌then◌else◌, ltb, Bool-cases, Option-cases,
}
use standalone_dhcp.Prelude.Int.{ℤ, pos, negsuc, int_eq}
use standalone_dhcp.Prelude.Map.{lookup}
use standalone_dhcp.Net.{to4}
use standalone_dhcp.Pool.{free_mac, get_mac_index, free_ips_remaining}
use standalone_dhcp.Utils.{safe_int_to_uint64, set_option_server_identifier}
use standalone_dhcp.Dhcp.{Lib}
use standalone_dhcp.Handler.{State, pool_of, with_pool, hwcache_delete}
use standalone_dhcp.Discover.{
  Requested, refused, kept, faulted, Request, next_free, Outcome, offers, silent, panics, Round,
  again, done, give_up, check_address, take_address, retry_round, retry, replace_offer,
  cached_index, choose_index, lock_offer, confirm_offer,
}

module _ (lib : Lib) where
  open lib use {ints, world, dhcp4}

  pub hwcache_delete-transactions :
      (k : String) (s : State lib) → (hwcache_delete lib k s).transactions ≡ s.transactions
  unfolding hwcache_delete
  hwcache_delete-transactions k s = elim (Option-cases (ints.evicted s.handler.hwcache k)) [
    | inl none_e ↦ rw none_e refl
    | inr (v, some_e) ↦ rw some_e refl
  ]

  abbrev RoundKeeps : ints.Cache → Round (State lib) → Type 0
  RoundKeeps c (again b f s) = s.transactions ≡ c
  RoundKeeps c (done (offers f s)) = s.transactions ≡ c
  RoundKeeps c (done (silent s)) = s.transactions ≡ c
  RoundKeeps c (done (panics s)) = s.transactions ≡ c

  -- The cache of transactions of an outcome.
  abbrev pub OutcomeKeeps : ints.Cache → Option (Outcome (State lib)) → Type 0
  OutcomeKeeps c none = Unit
  OutcomeKeeps c (some (offers f s)) = s.transactions ≡ c
  OutcomeKeeps c (some (silent s)) = s.transactions ≡ c
  OutcomeKeeps c (some (panics s)) = s.transactions ≡ c

  check_address-keeps :
      (attempt : ℕ) (q : Request lib) (f : ℤ) (s : State lib)
      → RoundKeeps s.transactions (check_address lib attempt q f s)
  unfolding check_address lock_offer confirm_offer give_up
  check_address-keeps attempt q f s =
      elim (Bool-cases (
        world.ping attempt (to4 (set_option_server_identifier q.server s.handler.ip))
          (dhcp4.ip_add s.handler.start f) q.if_name)) [
            | inl answered ↦
                rw answered (hwcache_delete-transactions q.client (lock_offer lib q f s))
            | inr quiet ↦ rw quiet refl
          ]

  take_address-keeps :
      (attempt : ℕ) (q : Request lib) (b : Bool) (f : ℤ) (s : State lib) (r : Requested)
      → RoundKeeps s.transactions (take_address lib attempt q b f s r)
  unfolding take_address
  take_address-keeps attempt q b f s refused = refl
  take_address-keeps attempt q b f s faulted = refl
  take_address-keeps attempt q b f s (kept f' p) =
      elim (Option-cases (next_free lib attempt q.client f' p)) [
        | inl full ↦ rw (full, take_address) refl
        | inr ((f'', p'), e) ↦
            rw (e, take_address) (check_address-keeps attempt q f'' (with_pool lib p' s))
      ]

  retry_round-keeps :
      (attempt : ℕ) (q : Request lib) (b : Bool) (f : ℤ) (s : State lib)
      → RoundKeeps s.transactions (retry_round lib attempt q b f s)
  unfolding retry_round
  retry_round-keeps attempt q b f s =
      elim (Bool-cases (ltb 0 (free_ips_remaining (pool_of lib s)))) [
        | inr full ↦ rw full refl
        | inl room ↦ rw room (take_address-keeps attempt q b f s _)
      ]

  ended :
      (fuel attempt : ℕ) (q : Request lib) (c : ints.Cache) (r : Round (State lib))
      → RoundKeeps c r
      → ((b : Bool) (f : ℤ) (s : State lib)
          → s.transactions ≡ c
          → OutcomeKeeps c (retry lib fuel (suc attempt) q b f s))
      → OutcomeKeeps c
          (elim r [ again b' f' s' ↦ retry lib fuel (suc attempt) q b' f' s' | done o ↦ some o ])
  ended fuel attempt q c (again b' f' s') r k = k b' f' s' r
  ended fuel attempt q c (done (offers f' s')) r k = r
  ended fuel attempt q c (done (silent s')) r k = r
  ended fuel attempt q c (done (panics s')) r k = r

  retry-keeps :
      (fuel attempt : ℕ) (q : Request lib) (b : Bool) (f : ℤ) (s : State lib)
      → OutcomeKeeps s.transactions (retry lib fuel attempt q b f s)
  unfolding retry
  retry-keeps zero attempt q b f s = tt
  retry-keeps (suc fuel) attempt q b f s =
      ended fuel attempt q s.transactions (retry_round lib attempt q b f s)
        (retry_round-keeps attempt q b f s)
        λ b' f' s' e.
          subst (λ c. OutcomeKeeps c (retry lib fuel (suc attempt) q b' f' s')) e
            (retry-keeps fuel (suc attempt) q b' f' s')

  replace_offer-keeps :
      (q : Request lib) (f : ℤ) (s : State lib)
      → OutcomeKeeps s.transactions (some (replace_offer lib q f s))
  unfolding replace_offer
  replace_offer-keeps q f s =
      elim (Option-cases (ints.replace s.handler.hwcache q.client f (pos 5))) [
        | inl gone ↦ rw (gone, replace_offer) refl
        | inr (c, e) ↦ rw (e, replace_offer) refl
      ]

  vacant-keeps :
      (b : Bool) (fuel : ℕ) (q : Request lib) (x : ℤ) (c : ints.Cache) (s : State lib)
      → s.transactions ≡ c
      → OutcomeKeeps c
          (if b then some (replace_offer lib q x s) else retry lib fuel 0 q true (negsuc 0) s)
  vacant-keeps true fuel q x c s e =
      subst (λ d. OutcomeKeeps d (some (replace_offer lib q x s))) e (replace_offer-keeps q x s)
  vacant-keeps false fuel q x c s e =
      subst (λ d. OutcomeKeeps d (retry lib fuel 0 q true (negsuc 0) s)) e
        (retry-keeps fuel 0 q true (negsuc 0) s)

  cached_index-keeps :
      (fuel : ℕ) (q : Request lib) (x : ℤ) (s : State lib)
      → OutcomeKeeps s.transactions (cached_index lib fuel q x s)
  unfolding cached_index
  cached_index-keeps fuel q x s =
      elim (Bool-cases ((get_mac_index (safe_int_to_uint64 x) (pool_of lib s)).1 == q.client)) [
        | inl own ↦ rw own (replace_offer-keeps q x s)
        | inr other ↦
            elim (Bool-cases
              ((get_mac_index (safe_int_to_uint64 x) (pool_of lib s)).1 == free_mac)) [
                | inr taken ↦ rw (other, taken) (retry-keeps fuel 0 q true (negsuc 0) s)
                | inl vacant ↦
                    rw (other, vacant)
                      (vacant-keeps _ fuel q x s.transactions _
                        (hwcache_delete-transactions q.client s))
              ]
      ]

  pub choose_index-keeps :
      (fuel : ℕ) (q : Request lib) (s : State lib)
      → OutcomeKeeps s.transactions (choose_index lib fuel q s)
  unfolding choose_index
  choose_index-keeps fuel q s = elim (Option-cases (lookup q.client s.handler.ip_assigned)) [
    | inr (n, e) ↦ rw (e, choose_index) refl
    | inl dynamic ↦ elim (Option-cases (ints.get s.handler.hwcache q.client)) [
      | inr (x, e) ↦ rw (dynamic, e, choose_index) (cached_index-keeps fuel q x s)
      | inl missing ↦ rw (dynamic, missing, choose_index) (retry-keeps fuel 0 q true (negsuc 0) s)
    ]
  ]
