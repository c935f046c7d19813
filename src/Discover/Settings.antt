-- ===== src/Discover/Settings.antt =====
-- interface.go, `ServeDHCP`: a DISCOVER does not change the settings of a network.
use standalone_dhcp.Prelude.{
  ℕ, zero, suc, ◌≡◌, refl, subst, Bool, true, false, Option, none, some, String, ◌==◌, nat_eq,
  string_eq, ltb, if◌then◌else◌, Option-cases, Bool-cases, inl, inr,
}
use standalone_dhcp.Prelude.Int.{ℤ, pos, negsuc, int_eq}
use standalone_dhcp.Prelude.Map.{Map, lookup}
use standalone_dhcp.Net.{IpAddr, to4}
use standalone_dhcp.Convert.{Bytes}
use standalone_dhcp.Utils.{safe_int_to_uint64, set_option_server_identifier}
use standalone_dhcp.Pool.{free_mac, get_mac_index, free_ips_remaining}
use standalone_dhcp.Dhcp.{Lib}
use standalone_dhcp.Handler.{State, pool_of, with_pool, hwcache_delete}
use standalone_dhcp.Discover.{
  Request, Requested, refused, faulted, kept, Outcome, offers, silent, panics, Round, again, done,
  next_free, lock_offer, confirm_offer, give_up, check_address, take_address, retry_round, retry,
  replace_offer, cached_index, choose_index,
}

module _ (lib : Lib) where
  open lib use {ints, world, dhcp4}

  -- The handler without its pool and its caches.
  pub record Settings : Type 0 where
    pub ip : IpAddr
    pub options : Map ℕ Bytes
    pub start : IpAddr
    pub lease_range : ℤ
    pub lease_duration : ℤ
    pub layer2 : Bool
    pub role : String
    pub ip_reserved : Bytes
    pub ip_assigned : Map String ℕ

  abbrev pub settings_of : State lib → Settings
  settings_of s = record {
    ip = s.handler.ip;
    options = s.handler.options;
    start = s.handler.start;
    lease_range = s.handler.lease_range;
    lease_duration = s.handler.lease_duration;
    layer2 = s.handler.layer2;
    role = s.handler.role;
    ip_reserved = s.handler.ip_reserved;
    ip_assigned = s.handler.ip_assigned;
  }

  pub hwcache_delete-settings :
      (k : String) (s : State lib) → settings_of (hwcache_delete lib k s) ≡ settings_of s
  unfolding hwcache_delete
  hwcache_delete-settings k s = elim (Option-cases (ints.evicted s.handler.hwcache k)) [
    | inl gone ↦ rw gone refl
    | inr (v, e) ↦ rw e refl
  ]

  abbrev RoundKeeps : Settings → Round (State lib) → Type 0
  RoundKeeps x (again b f s) = settings_of s ≡ x
  RoundKeeps x (done (offers f s)) = settings_of s ≡ x
  RoundKeeps x (done (silent s)) = settings_of s ≡ x
  RoundKeeps x (done (panics s)) = settings_of s ≡ x

  give_up-settings :
      (q : Request lib) (f : ℤ) (s : State lib) → settings_of (give_up lib q f s) ≡ settings_of s
  unfolding give_up
  give_up-settings q f s = hwcache_delete-settings q.client s

  check_address-settings :
      (attempt : ℕ) (q : Request lib) (f : ℤ) (s : State lib)
      → RoundKeeps (settings_of s) (check_address lib attempt q f s)
  unfolding check_address lock_offer confirm_offer
  check_address-settings attempt q f s =
      elim (Bool-cases (
        world.ping attempt (to4 (set_option_server_identifier q.server s.handler.ip))
          (dhcp4.ip_add s.handler.start f) q.if_name)) [
            | inl answered ↦ rw answered (give_up-settings q f (lock_offer lib q f s))
            | inr quiet ↦ rw quiet refl
          ]

  take_address-settings :
      (attempt : ℕ) (q : Request lib) (b : Bool) (f : ℤ) (s : State lib) (r : Requested)
      → RoundKeeps (settings_of s) (take_address lib attempt q b f s r)
  unfolding take_address
  take_address-settings attempt q b f s refused = refl
  take_address-settings attempt q b f s faulted = refl
  take_address-settings attempt q b f s (kept f' p) =
      elim (Option-cases (next_free lib attempt q.client f' p)) [
        | inl full ↦ rw (full, take_address) refl
        | inr ((f'', p'), e) ↦
            rw (e, take_address) (check_address-settings attempt q f'' (with_pool lib p' s))
      ]

  retry_round-settings :
      (attempt : ℕ) (q : Request lib) (b : Bool) (f : ℤ) (s : State lib)
      → RoundKeeps (settings_of s) (retry_round lib attempt q b f s)
  unfolding retry_round
  retry_round-settings attempt q b f s =
      elim (Bool-cases (ltb 0 (free_ips_remaining (pool_of lib s)))) [
        | inr full ↦ rw full refl
        | inl room ↦ rw room (take_address-settings attempt q b f s _)
      ]

  abbrev pub OutcomeKeeps : Settings → Option (Outcome (State lib)) → Type 0
  OutcomeKeeps x none = Unit
  OutcomeKeeps x (some (offers f s)) = settings_of s ≡ x
  OutcomeKeeps x (some (silent s)) = settings_of s ≡ x
  OutcomeKeeps x (some (panics s)) = settings_of s ≡ x

  ended-settings :
      (fuel attempt : ℕ) (q : Request lib) (x : Settings) (r : Round (State lib))
      → RoundKeeps x r
      → ((b : Bool) (f : ℤ) (s : State lib)
          → OutcomeKeeps (settings_of s) (retry lib fuel (suc attempt) q b f s))
      → OutcomeKeeps x
          (elim r [ again b' f' s' ↦ retry lib fuel (suc attempt) q b' f' s' | done o ↦ some o ])
  ended-settings fuel attempt q x (again b' f' s') r k =
      subst (λ y. OutcomeKeeps y (retry lib fuel (suc attempt) q b' f' s')) r (k b' f' s')
  ended-settings fuel attempt q x (done (offers f' s')) r k = r
  ended-settings fuel attempt q x (done (silent s')) r k = r
  ended-settings fuel attempt q x (done (panics s')) r k = r

  retry-settings :
      (fuel attempt : ℕ) (q : Request lib) (b : Bool) (f : ℤ) (s : State lib)
      → OutcomeKeeps (settings_of s) (retry lib fuel attempt q b f s)
  unfolding retry
  retry-settings zero attempt q b f s = tt
  retry-settings (suc fuel) attempt q b f s =
      ended-settings fuel attempt q (settings_of s) (retry_round lib attempt q b f s)
        (retry_round-settings attempt q b f s)
        λ b' f' s'. retry-settings fuel (suc attempt) q b' f' s'

  replace_offer-settings :
      (q : Request lib) (f : ℤ) (s : State lib)
      → OutcomeKeeps (settings_of s) (some (replace_offer lib q f s))
  unfolding replace_offer
  replace_offer-settings q f s =
      elim (Option-cases (ints.replace s.handler.hwcache q.client f (pos 5))) [
        | inl gone ↦ rw (gone, replace_offer) refl
        | inr (c, e) ↦ rw (e, replace_offer) refl
      ]

  vacant-settings :
      (b : Bool) (fuel : ℕ) (q : Request lib) (x : ℤ) (s s' : State lib)
      → settings_of s' ≡ settings_of s
      → OutcomeKeeps
          (settings_of s)
          (if b then some (replace_offer lib q x s') else retry lib fuel 0 q true (negsuc 0) s')
  vacant-settings true fuel q x s s' e =
      subst (λ y. OutcomeKeeps y (some (replace_offer lib q x s'))) e
        (replace_offer-settings q x s')
  vacant-settings false fuel q x s s' e =
      subst (λ y. OutcomeKeeps y (retry lib fuel 0 q true (negsuc 0) s')) e
        (retry-settings fuel 0 q true (negsuc 0) s')

  cached_index-settings :
      (fuel : ℕ) (q : Request lib) (x : ℤ) (s : State lib)
      → OutcomeKeeps (settings_of s) (cached_index lib fuel q x s)
  unfolding cached_index
  cached_index-settings fuel q x s =
      elim (Bool-cases ((get_mac_index (safe_int_to_uint64 x) (pool_of lib s)).1 == q.client)) [
        | inl own ↦ rw own (replace_offer-settings q x s)
        | inr other ↦
            elim (Bool-cases
              ((get_mac_index (safe_int_to_uint64 x) (pool_of lib s)).1 == free_mac)) [
                | inr taken ↦ rw (other, taken) (retry-settings fuel 0 q true (negsuc 0) s)
                | inl vacant ↦
                    rw (other, vacant)
                      (vacant-settings _ fuel q x s _ (hwcache_delete-settings q.client s))
              ]
      ]

  pub choose_index-settings :
      (fuel : ℕ) (q : Request lib) (s : State lib)
      → OutcomeKeeps (settings_of s) (choose_index lib fuel q s)
  unfolding choose_index
  choose_index-settings fuel q s = elim (Option-cases (lookup q.client s.handler.ip_assigned)) [
    | inr (n, e) ↦ rw (e, choose_index) refl
    | inl dynamic ↦ elim (Option-cases (ints.get s.handler.hwcache q.client)) [
      | inr (x, e) ↦ rw (dynamic, e, choose_index) (cached_index-settings fuel q x s)
      | inl missing ↦
          rw (dynamic, missing, choose_index) (retry-settings fuel 0 q true (negsuc 0) s)
    ]
  ]
