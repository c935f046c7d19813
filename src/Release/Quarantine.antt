-- ===== src/Release/Quarantine.antt =====
-- interface.go: what a RELEASE or a DECLINE does.
use standalone_dhcp.Prelude.{
  ◌≡◌, ◌≢◌, ◌⊎◌, inl, inr, refl, sym, ap, ◌∙◌, subst, true, false, some, ◌==◌, length, string_eq,
  Bool-cases, Option-cases, nat_eq,
}
use standalone_dhcp.Prelude.Int.{ℤ, int_eq}
use standalone_dhcp.Net.{to4}
use standalone_dhcp.Pool.{get_mac_index, fake_mac, free_mac}
use standalone_dhcp.Pool.View.{reserve_ip_index_taken}
use standalone_dhcp.Utils.{safe_int_to_uint64}
use standalone_dhcp.Dhcp.{Lib}
use standalone_dhcp.Handler.{State, pool_of}
use standalone_dhcp.Request.{Message, requested_ip, lease_num, in_range}
use standalone_dhcp.Release.{quarantine, give_back, serve_release}

module _ (lib : Lib) where
  open lib use {ints}

  -- The client gives back the index that the cache and the pool have for it; two goroutines follow.
  abbrev pub GivesBack : Message lib → ℤ → State lib → State lib → Type 0
  GivesBack m index s s' =
      (in_range lib index s ≡ true)
      × (ints.get s.handler.hwcache m.client ≡ some index)
      × ((get_mac_index (safe_int_to_uint64 index) (pool_of lib s)).1 ≡ m.client)
      × (s' ≡ quarantine lib m index s)

  give_back_cases :
      (m : Message lib) (index : ℤ) (s : State lib)
      → in_range lib index s ≡ true
      → (give_back lib m index s ≡ s) ⊎ GivesBack m index s (give_back lib m index s)
  unfolding give_back
  give_back_cases m index s inside = elim (Option-cases (ints.get s.handler.hwcache m.client)) [
    | inl missing ↦ inl (rw (missing, give_back) refl)
    | inr (x, cached) ↦ elim (Bool-cases (index == x)) [
      | inr other ↦ inl (rw (cached, give_back, other) refl)
      | inl same ↦
          let e : index ≡ x = (int_eq.equal_iff index x).0 same in
          elim (Bool-cases ((get_mac_index (safe_int_to_uint64 x) (pool_of lib s)).1 == m.client)) [
            | inr foreign ↦ inl (rw (cached, give_back, same, foreign) refl)
            | inl own ↦ inr (
              inside,
              cached ∙ ap some (sym e),
              ap (λ y. (get_mac_index (safe_int_to_uint64 y) (pool_of lib s)).1) e
                  ∙ (string_eq.equal_iff (get_mac_index (safe_int_to_uint64 x) (pool_of lib s)).1
                        m.client).0
                      own,
              rw (cached, give_back, same, own) refl,
            )
          ]
    ]
  ]

  released_odd :
      (m : Message lib) (s : State lib)
      → (length (to4 (requested_ip lib m)) == 0) ≡ true
      → (serve_release lib m s).1 ≡ s
  unfolding serve_release
  released_odd m s odd = rw odd refl

  pub released_inside :
      (m : Message lib) (s : State lib)
      → (length (to4 (requested_ip lib m)) == 0) ≡ false
      → in_range lib (lease_num lib (requested_ip lib m) s) s ≡ true
      → (serve_release lib m s).1 ≡ give_back lib m (lease_num lib (requested_ip lib m) s) s
  unfolding serve_release
  released_inside m s good inside = rw (good, inside) refl

  released_outside :
      (m : Message lib) (s : State lib)
      → (length (to4 (requested_ip lib m)) == 0) ≡ false
      → in_range lib (lease_num lib (requested_ip lib m) s) s ≡ false
      → (serve_release lib m s).1 ≡ s
  unfolding serve_release
  released_outside m s good outside = rw (good, outside) refl

  -- A RELEASE or a DECLINE changes nothing, or it gives back the index of its address, which is in
  -- the range, which the cache has for the client, and at which the pool has the client.
  pub serve_release_cases :
      (m : Message lib) (s : State lib)
      → ((serve_release lib m s).1 ≡ s)
        ⊎ GivesBack m (lease_num lib (requested_ip lib m) s) s (serve_release lib m s).1
  serve_release_cases m s = elim (Bool-cases (length (to4 (requested_ip lib m)) == 0)) [
    | inl odd ↦ inl (released_odd m s odd)
    | inr good ↦ elim (Bool-cases (in_range lib (lease_num lib (requested_ip lib m) s) s)) [
      | inr outside ↦ inl (released_outside m s good outside)
      | inl inside ↦
          subst (λ t. (t ≡ s) ⊎ GivesBack m (lease_num lib (requested_ip lib m) s) s t)
            (sym (released_inside m s good inside))
            (give_back_cases m (lease_num lib (requested_ip lib m) s) s inside)
    ]
  ]

  pub quarantine-pool :
      (m : Message lib) (index : ℤ) (s : State lib)
      → m.client ≢ free_mac
      → (get_mac_index (safe_int_to_uint64 index) (pool_of lib s)).1 ≡ m.client
      → pool_of lib (quarantine lib m index s) ≡ pool_of lib s
  unfolding quarantine
  quarantine-pool m index s real own =
      reserve_ip_index_taken (safe_int_to_uint64 index) fake_mac m.client (pool_of lib s) real own

  -- For a client other than 00:00:00:00:00:00, a RELEASE or a DECLINE does not change the pool: the
  -- index that is to be marked as unusable stays with the client.
  pub serve_release-pool :
      (m : Message lib) (s : State lib)
      → m.client ≢ free_mac
      → pool_of lib (serve_release lib m s).1 ≡ pool_of lib s
  serve_release-pool m s real = elim (serve_release_cases m s) [
    | inl same ↦ ap (pool_of lib) same
    | inr (_, _, own, e) ↦ ap (pool_of lib) e ∙ quarantine-pool m _ s real own
  ]
