-- ===== src/Request/Settings.antt =====
-- interface.go, `ServeDHCP`: a REQUEST does not change the settings of a network.
use standalone_dhcp.Prelude.{
  ℕ, ◌≡◌, refl, ◌∙◌, true, false, not, ◌&&◌, String, ◌==◌, nat_eq, string_eq, is_some, length,
  Option-cases, Bool-cases, inl, inr,
}
use standalone_dhcp.Prelude.Int.{ℤ, pos, int_eq}
use standalone_dhcp.Prelude.Map.{lookup}
use standalone_dhcp.Net.{IpAddr, ip_equal, ipv4_zero}
use standalone_dhcp.Utils.{safe_int_to_uint64}
use standalone_dhcp.Pool.{get_mac_index}
use standalone_dhcp.Dhcp.{Lib}
use standalone_dhcp.Handler.{State, pool_of, build_reply_options}
use standalone_dhcp.Request.{
  Message, Verdict, withdrawn, repeated, decided, requested_ip, lease_num, in_range, is_foreign,
  claim_static, drop_offer, remember_request, claim_cached, judge, record_lease, acknowledge,
  conclude, serve_request,
}
use standalone_dhcp.Discover.Settings.{Settings, settings_of, hwcache_delete-settings}

module _ (lib : Lib) where
  open lib use {ints, world, dhcp4}

  abbrev VerdictKeeps : Settings lib → Verdict lib → Type 0
  VerdictKeeps x (withdrawn s) = settings_of lib s ≡ x
  VerdictKeeps x (repeated s) = settings_of lib s ≡ x
  VerdictKeeps x (decided b index s) = settings_of lib s ≡ x

  drop_offer-settings :
      (m : Message lib) (s : State lib) → settings_of lib (drop_offer lib m s) ≡ settings_of lib s
  unfolding drop_offer
  drop_offer-settings m s = elim (Option-cases (ints.get s.handler.xid m.xid_key)) [
    | inl none_e ↦ rw (none_e, drop_offer) refl
    | inr (v, some_e) ↦ elim (Bool-cases (v == pos 1)) [
      | inl one ↦ rw (some_e, drop_offer, one) (hwcache_delete-settings lib m.client s)
      | inr other ↦ rw (some_e, drop_offer, other) refl
    ]
  ]

  claim_static-settings :
      (n : ℕ) (z : ℤ) (s : State lib) → VerdictKeeps (settings_of lib s) (claim_static lib n z s)
  unfolding claim_static
  claim_static-settings n z s = elim (Bool-cases (pos n == z)) [
    | inl own ↦ rw own refl
    | inr other ↦ rw other refl
  ]

  claim_cached-settings :
      (m : Message lib) (ip : IpAddr) (index : ℤ) (s : State lib)
      → VerdictKeeps (settings_of lib s) (claim_cached lib m ip index s)
  unfolding claim_cached remember_request
  claim_cached-settings m ip index s =
      elim (Bool-cases (ip_equal (dhcp4.ip_add s.handler.start index) ip)) [
        | inr other ↦ rw other (drop_offer-settings m s)
        | inl asked ↦ elim (Bool-cases (is_some (ints.get s.requests m.cache_key))) [
          | inl again_ ↦ rw (asked, again_) refl
          | inr first ↦
              elim (Bool-cases
                ((get_mac_index (safe_int_to_uint64 index) (pool_of lib s)).1 == m.client)) [
                  | inl own ↦ rw (asked, first, own) refl
                  | inr other ↦ rw (asked, first, other) refl
                ]
        ]
      ]

  judge-settings :
      (m : Message lib) (ip : IpAddr) (s : State lib)
      → VerdictKeeps (settings_of lib s) (judge lib m ip s)
  unfolding judge
  judge-settings m ip s = elim (Bool-cases (in_range lib (lease_num lib ip s) s)) [
    | inr outside ↦ rw outside refl
    | inl inside ↦ elim (Option-cases (lookup m.client s.handler.ip_assigned)) [
      | inr (n, e) ↦ rw (inside, e, judge) (claim_static-settings n (lease_num lib ip s) s)
      | inl dynamic ↦ elim (Option-cases (ints.get s.handler.hwcache m.client)) [
        | inl missing ↦ rw (inside, dynamic, missing, judge) refl
        | inr (x, e) ↦ rw (inside, dynamic, e, judge) (claim_cached-settings m ip x s)
      ]
    ]
  ]

  acknowledge-settings :
      (m : Message lib) (network_ip : String) (ip : IpAddr) (index : ℤ) (s : State lib)
      → settings_of lib (acknowledge lib m network_ip ip index s).1 ≡ settings_of lib s
  unfolding acknowledge record_lease
  acknowledge-settings m network_ip ip index s =
      elim (Option-cases
        (build_reply_options lib s.handler.options m.chaddr network_ip m.client s.store)) [
          | inl panic ↦ rw (panic, acknowledge) refl
          | inr ((store', options), e) ↦ rw (e, acknowledge) refl
        ]

  conclude-settings :
      (m : Message lib) (network_ip : String) (ip : IpAddr) (x : Settings lib) (v : Verdict lib)
      → VerdictKeeps x v
      → settings_of lib (conclude lib m network_ip ip v).1 ≡ x
  unfolding conclude
  conclude-settings m network_ip ip x (withdrawn s) h = h
  conclude-settings m network_ip ip x (repeated s) h = h
  conclude-settings m network_ip ip x (decided true index s) h =
      acknowledge-settings m network_ip ip index s ∙ h
  conclude-settings m network_ip ip x (decided false index s) h = h

  pub serve_request-settings :
      (m : Message lib) (network_ip : String) (s : State lib)
      → settings_of lib (serve_request lib m network_ip s).1 ≡ settings_of lib s
  unfolding serve_request
  serve_request-settings m network_ip s =
      elim (Bool-cases (is_foreign (lookup 54 m.options) s.handler.ip)) [
        | inl foreign ↦ rw foreign refl
        | inr here_ ↦
            elim (Bool-cases
              (length (requested_ip lib m) == 4 && not (ip_equal (requested_ip lib m) ipv4_zero))) [
                | inr odd ↦ rw (here_, odd) refl
                | inl good ↦
                    rw (here_, good)
                      (conclude-settings m network_ip (requested_ip lib m) _ _
                        (judge-settings m (requested_ip lib m) s))
              ]
      ]
