-- ===== src/Request/Grant.antt =====
-- interface.go: what a request that is granted tells of the pool, the caches and the address.
use standalone_dhcp.Prelude.{
  ℕ, ◌≡◌, ◌⊎◌, inl, inr, refl, true, false, Option, none, some, String, ◌==◌, string_eq, Bool-cases,
  Option-cases, is_some, arith,
}
use standalone_dhcp.Prelude.Int.{ℤ, pos, int_eq}
use standalone_dhcp.Prelude.Map.{lookup}
use standalone_dhcp.Net.{IpAddr, ip_equal}
use standalone_dhcp.Pool.{get_mac_index}
use standalone_dhcp.Utils.{safe_int_to_uint64}
use standalone_dhcp.Dhcp.{Lib}
use standalone_dhcp.Handler.{State, pool_of, hwcache_delete}
use standalone_dhcp.Request.{
  Message, Verdict, withdrawn, repeated, decided, lease_num, in_range, claim_static, claim_cached,
  judge, drop_offer, remember_request,
}

module _ (lib : Lib) where
  open lib use {dhcp4, ints, texts}

  -- A static index: the configuration gives it to the client, and it is the one of the address.
  abbrev pub IsStatic : Message lib → IpAddr → ℤ → State lib → Type 0
  IsStatic m ip index s =
      (n : ℕ) × (lookup m.client s.handler.ip_assigned ≡ some n)
      × (index ≡ pos n)
      × (index ≡ lease_num lib ip s)

  -- A dynamic index: the cache has it for the client, its address is the one asked for, and the pool
  -- has the client at it.
  abbrev pub IsLeased : Message lib → IpAddr → ℤ → State lib → Type 0
  IsLeased m ip index s =
      (lookup m.client s.handler.ip_assigned ≡ none)
      × (ints.get s.handler.hwcache m.client ≡ some index)
      × (ip_equal (dhcp4.ip_add s.handler.start index) ip ≡ true)
      × ((get_mac_index (safe_int_to_uint64 index) (pool_of lib s)).1 ≡ m.client)
      × (ints.get s.requests m.cache_key ≡ none)

  -- What a verdict tells.
  abbrev pub IsSound : Message lib → IpAddr → State lib → Verdict lib → Type 0
  IsSound m ip s (withdrawn s') = s' ≡ s
  IsSound m ip s (repeated s') = s' ≡ s
  IsSound m ip s (decided false index s') = pool_of lib s' ≡ pool_of lib s
  IsSound m ip s (decided true index s') =
      (in_range lib (lease_num lib ip s) s ≡ true)
      × ((s'.handler ≡ s.handler) × (s'.store ≡ s.store))
      × (IsStatic m ip index s ⊎ IsLeased m ip index s)

  pub hwcache_delete-pool :
      (k : String) (s : State lib) → pool_of lib (hwcache_delete lib k s) ≡ pool_of lib s
  unfolding hwcache_delete
  hwcache_delete-pool k s = elim (Option-cases (ints.evicted s.handler.hwcache k)) [
    | inl none_e ↦ rw none_e refl
    | inr (v, some_e) ↦ rw some_e refl
  ]

  drop_offer-pool :
      (m : Message lib) (s : State lib) → pool_of lib (drop_offer lib m s) ≡ pool_of lib s
  unfolding drop_offer
  drop_offer-pool m s = elim (Option-cases (ints.get s.handler.xid m.xid_key)) [
    | inl none_e ↦ rw (none_e, drop_offer) refl
    | inr (v, some_e) ↦ elim (Bool-cases (v == pos 1)) [
      | inl one ↦ rw (some_e, drop_offer, one) (hwcache_delete-pool m.client s)
      | inr other ↦ rw (some_e, drop_offer, other) refl
    ]
  ]

  claim_static-IsSound :
      (m : Message lib) (ip : IpAddr) (n : ℕ) (s : State lib)
      → in_range lib (lease_num lib ip s) s ≡ true
      → lookup m.client s.handler.ip_assigned ≡ some n
      → IsSound m ip s (claim_static lib n (lease_num lib ip s) s)
  unfolding claim_static
  claim_static-IsSound m ip n s inside e = elim (Bool-cases (pos n == lease_num lib ip s)) [
    | inl same ↦ rw same (
      inside,
      (refl, refl),
      inl (n, e, refl, (int_eq.equal_iff (pos n) (lease_num lib ip s)).0 same),
    )
    | inr other ↦ rw other refl
  ]

  is_none : {A : Type 0} (o : Option A) → is_some o ≡ false → o ≡ none
  is_none none e = refl
  is_none (some x) e = ground arith

  claim_cached-IsSound :
      (m : Message lib) (ip : IpAddr) (index : ℤ) (s : State lib)
      → in_range lib (lease_num lib ip s) s ≡ true
      → lookup m.client s.handler.ip_assigned ≡ none
      → ints.get s.handler.hwcache m.client ≡ some index
      → IsSound m ip s (claim_cached lib m ip index s)
  unfolding claim_cached remember_request
  claim_cached-IsSound m ip index s inside dynamic cached =
      elim (Bool-cases (ip_equal (dhcp4.ip_add s.handler.start index) ip)) [
        | inr other ↦ rw other (drop_offer-pool m s)
        | inl same ↦ elim (Bool-cases (is_some (ints.get s.requests m.cache_key))) [
          | inl seen ↦ rw (same, seen) refl
          | inr new ↦
              elim (Bool-cases
                ((get_mac_index (safe_int_to_uint64 index) (pool_of lib s)).1 == m.client)) [
                  | inr foreign ↦ rw (same, new, foreign) refl
                  | inl own ↦
                      rw (same, new, own)
                        (
                          inside,
                          (refl, refl),
                          inr (
                            dynamic,
                            cached,
                            same,
                            (string_eq.equal_iff
                                  (get_mac_index (safe_int_to_uint64 index) (pool_of lib s)).1
                                  m.client).0
                                own,
                            is_none (ints.get s.requests m.cache_key) new,
                          ),
                        )
                ]
        ]
      ]

  -- A request is granted only for an address in the range, and only for the client's static index
  -- if that is the one of the address, or, for a client without a static index, for the index that
  -- the cache has for the client, whose address is the one asked for, at which the pool has the
  -- client, and if the cache of requests does not have this one. No verdict changes the pool, and
  -- the two without a decision change nothing.
  pub judge-IsSound :
      (m : Message lib) (ip : IpAddr) (s : State lib) → IsSound m ip s (judge lib m ip s)
  unfolding judge
  judge-IsSound m ip s = elim (Bool-cases (in_range lib (lease_num lib ip s) s)) [
    | inr outside ↦ rw outside refl
    | inl inside ↦ elim (Option-cases (lookup m.client s.handler.ip_assigned)) [
      | inr (n, static) ↦ rw (inside, static, judge) (claim_static-IsSound m ip n s inside static)
      | inl dynamic ↦ elim (Option-cases (ints.get s.handler.hwcache m.client)) [
        | inl missing ↦ rw (inside, dynamic, missing, judge) refl
        | inr (index, cached) ↦
            rw (inside, dynamic, cached, judge)
              (claim_cached-IsSound m ip index s inside dynamic cached)
      ]
    ]
  ]
