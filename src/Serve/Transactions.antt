-- ===== src/Serve/Transactions.antt =====
-- interface.go: the handlers of a packet leave the cache of transactions as it is.
use standalone_dhcp.Prelude.{
  ℕ, ◌≡◌, refl, ap, ◌∙◌, inl, inr, true, false, not, ◌&&◌, Option, none, some, String, ◌==◌,
  string_eq, nat_eq, length, is_some, Bool-cases, Option-cases,
}
use standalone_dhcp.Prelude.Int.{ℤ, pos, int_eq}
use standalone_dhcp.Prelude.Map.{lookup}
use standalone_dhcp.Net.{IpAddr, ip_equal, ipv4_zero}
use standalone_dhcp.Pool.{get_mac_index}
use standalone_dhcp.Utils.{safe_int_to_uint64}
use standalone_dhcp.Dhcp.{
  Lib, MessageType, discover, offer, request, decline, ack, nak, release, inform,
}
use standalone_dhcp.Handler.{State, Answer, pool_of, build_reply_options}
use standalone_dhcp.Discover.{Outcome, offers, silent, panics}
use standalone_dhcp.Request.{
  Message, Verdict, withdrawn, repeated, decided, lease_num, in_range, claim_static, claim_cached,
  judge, drop_offer, remember_request, record_lease, acknowledge, conclude, serve_request,
  is_foreign, requested_ip,
}
use standalone_dhcp.Release.{quarantine, serve_release}
use standalone_dhcp.Release.Quarantine.{serve_release_cases}
use standalone_dhcp.Serve.{Interface, make_offer, answer_discover, dispatch, discover_of}
use standalone_dhcp.Serve.Once.{OutcomeKeeps, choose_index-keeps, hwcache_delete-transactions}

module _ (lib : Lib) where
  open lib use {ints, dhcp4, world}

  abbrev VerdictKeeps : ints.Cache → Verdict lib → Type 0
  VerdictKeeps c (withdrawn s) = s.transactions ≡ c
  VerdictKeeps c (repeated s) = s.transactions ≡ c
  VerdictKeeps c (decided b i s) = s.transactions ≡ c

  drop_offer-transactions :
      (m : Message lib) (s : State lib) → (drop_offer lib m s).transactions ≡ s.transactions
  unfolding drop_offer
  drop_offer-transactions m s = elim (Option-cases (ints.get s.handler.xid m.xid_key)) [
    | inl none_e ↦ rw (none_e, drop_offer) refl
    | inr (v, some_e) ↦ elim (Bool-cases (v == pos 1)) [
      | inl one ↦ rw (some_e, drop_offer, one) (hwcache_delete-transactions lib m.client s)
      | inr other ↦ rw (some_e, drop_offer, other) refl
    ]
  ]

  claim_static-keeps :
      (n : ℕ) (i : ℤ) (s : State lib) → VerdictKeeps s.transactions (claim_static lib n i s)
  unfolding claim_static
  claim_static-keeps n i s = elim (Bool-cases (pos n == i)) [
    | inl same ↦ rw same refl
    | inr other ↦ rw other refl
  ]

  claim_cached-keeps :
      (m : Message lib) (ip : IpAddr) (i : ℤ) (s : State lib)
      → VerdictKeeps s.transactions (claim_cached lib m ip i s)
  unfolding claim_cached remember_request
  claim_cached-keeps m ip i s = elim (Bool-cases (ip_equal (dhcp4.ip_add s.handler.start i) ip)) [
    | inr other ↦ rw other (drop_offer-transactions m s)
    | inl same ↦ elim (Bool-cases (is_some (ints.get s.requests m.cache_key))) [
      | inl seen ↦ rw (same, seen) refl
      | inr new ↦
          elim (Bool-cases ((get_mac_index (safe_int_to_uint64 i) (pool_of lib s)).1 == m.client)) [
            | inl own ↦ rw (same, new, own) refl
            | inr foreign ↦ rw (same, new, foreign) refl
          ]
    ]
  ]

  judge-keeps :
      (m : Message lib) (ip : IpAddr) (s : State lib)
      → VerdictKeeps s.transactions (judge lib m ip s)
  unfolding judge
  judge-keeps m ip s = elim (Bool-cases (in_range lib (lease_num lib ip s) s)) [
    | inr outside ↦ rw outside refl
    | inl inside ↦ elim (Option-cases (lookup m.client s.handler.ip_assigned)) [
      | inr (n, static) ↦ rw (inside, static, judge) (claim_static-keeps n (lease_num lib ip s) s)
      | inl dynamic ↦ elim (Option-cases (ints.get s.handler.hwcache m.client)) [
        | inl missing ↦ rw (inside, dynamic, missing, judge) refl
        | inr (index, cached) ↦
            rw (inside, dynamic, cached, judge) (claim_cached-keeps m ip index s)
      ]
    ]
  ]

  acknowledge-transactions :
      (m : Message lib) (network_ip : String) (ip : IpAddr) (i : ℤ) (s : State lib)
      → (acknowledge lib m network_ip ip i s).1.transactions ≡ s.transactions
  unfolding acknowledge record_lease
  acknowledge-transactions m network_ip ip i s =
      elim (Option-cases
        (build_reply_options lib s.handler.options m.chaddr network_ip m.client s.store)) [
          | inl panic ↦ rw (panic, acknowledge) refl
          | inr ((store', options), e) ↦ rw (e, acknowledge) refl
        ]

  conclude-transactions :
      (m : Message lib) (network_ip : String) (ip : IpAddr) (c : ints.Cache) (v : Verdict lib)
      → VerdictKeeps c v
      → (conclude lib m network_ip ip v).1.transactions ≡ c
  unfolding conclude
  conclude-transactions m network_ip ip c (withdrawn s) h = h
  conclude-transactions m network_ip ip c (repeated s) h = h
  conclude-transactions m network_ip ip c (decided true i s) h =
      acknowledge-transactions m network_ip ip i s ∙ h
  conclude-transactions m network_ip ip c (decided false i s) h = h

  serve_request-transactions :
      (m : Message lib) (network_ip : String) (s : State lib)
      → (serve_request lib m network_ip s).1.transactions ≡ s.transactions
  unfolding serve_request
  serve_request-transactions m network_ip s =
      elim (Bool-cases (is_foreign (lookup 54 m.options) s.handler.ip)) [
        | inl foreign ↦ rw foreign refl
        | inr ours ↦
            elim (Bool-cases
              (length (requested_ip lib m) == 4 && not (ip_equal (requested_ip lib m) ipv4_zero))) [
                | inr odd ↦ rw (ours, odd) refl
                | inl sound ↦
                    rw (ours, sound)
                      (conclude-transactions m network_ip (requested_ip lib m) s.transactions _
                        (judge-keeps m (requested_ip lib m) s))
              ]
      ]

  quarantine-transactions :
      (m : Message lib) (i : ℤ) (s : State lib)
      → (quarantine lib m i s).transactions ≡ s.transactions
  unfolding quarantine
  quarantine-transactions m i s = refl

  serve_release-transactions :
      (m : Message lib) (s : State lib) → (serve_release lib m s).1.transactions ≡ s.transactions
  serve_release-transactions m s = elim (serve_release_cases lib m s) [
    | inl same ↦ ap (λ (t : State lib). t.transactions) same
    | inr (_, _, _, e) ↦ ap (λ (t : State lib). t.transactions) e ∙ quarantine-transactions m _ s
  ]

  -- What is left of the transactions by one packet.
  abbrev pub ResultKeeps : ints.Cache → Option (Answer lib × State lib) → Type 0
  ResultKeeps c none = Unit
  ResultKeeps c (some (a, s)) = s.transactions ≡ c

  make_offer-transactions :
      (m : Message lib) (network_ip : String) (f : ℤ) (s : State lib)
      → (make_offer lib m network_ip f s).1.transactions ≡ s.transactions
  unfolding make_offer
  make_offer-transactions m network_ip f s =
      elim (Option-cases
        (build_reply_options lib s.handler.options m.chaddr network_ip m.client s.store)) [
          | inl panic ↦ rw (panic, make_offer) refl
          | inr ((store', options), e) ↦ rw (e, make_offer) refl
        ]

  answer_discover-keeps :
      (m : Message lib) (network_ip : String) (c : ints.Cache) (o : Option (Outcome (State lib)))
      → OutcomeKeeps lib c o
      → ResultKeeps c (answer_discover lib m network_ip o)
  answer_discover-keeps m network_ip c none h = tt
  answer_discover-keeps m network_ip c (some (offers f s)) h =
      make_offer-transactions m network_ip f s ∙ h
  answer_discover-keeps m network_ip c (some (silent s)) h = h
  answer_discover-keeps m network_ip c (some (panics s)) h = h

  pub dispatch-keeps :
      (fuel : ℕ) (i : Interface lib) (server : IpAddr) (network_ip : String) (t : MessageType)
      (m : Message lib) (s : State lib)
      → ResultKeeps s.transactions (dispatch lib fuel i server network_ip t m s)
  unfolding dispatch
  dispatch-keeps fuel i server network_ip discover m s =
      answer_discover-keeps m network_ip s.transactions _
        (choose_index-keeps lib fuel (discover_of lib i server m) s)
  dispatch-keeps fuel i server network_ip request m s = serve_request-transactions m network_ip s
  dispatch-keeps fuel i server network_ip inform m s = serve_request-transactions m network_ip s
  dispatch-keeps fuel i server network_ip release m s = serve_release-transactions m s
  dispatch-keeps fuel i server network_ip decline m s = serve_release-transactions m s
  dispatch-keeps fuel i server network_ip offer m s = refl
  dispatch-keeps fuel i server network_ip ack m s = refl
  dispatch-keeps fuel i server network_ip nak m s = refl
