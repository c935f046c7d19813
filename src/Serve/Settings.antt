-- ===== src/Serve/Settings.antt =====
-- interface.go: what no packet, goroutine, expiry or release through the API changes of a network.
use standalone_dhcp.Prelude.{
  length, ℕ, ◌≡◌, refl, ◌∙◌, subst, Option, none, some, String, ◌++◌, ◌==◌, nat_eq, string_eq,
  is_some, Option-cases, Bool-cases, inl, inr,
}
use standalone_dhcp.Prelude.Int.{ℤ, pos, int_eq}
use standalone_dhcp.Net.{to4, IpAddr}
use standalone_dhcp.Utils.{safe_int_to_uint64}
use standalone_dhcp.Pool.{get_mac_index}
use standalone_dhcp.Dhcp.{
  Lib, MessageType, discover, offer, request, decline, ack, nak, release, inform,
}
use standalone_dhcp.Handler.{State, Answer, Timer, free_index, forget, pool_of, build_reply_options}
use standalone_dhcp.Discover.{Outcome, offers, silent, panics}
use standalone_dhcp.Request.{Message, requested_ip, lease_num, in_range}
use standalone_dhcp.Release.{serve_release, give_back, quarantine, fire}
use standalone_dhcp.Serve.{
  Interface, make_offer, answer_discover, dispatch, serve_once, discover_of,
}
use standalone_dhcp.Serve.Invariant.{
  Step, Run, serves, wakes, expires, forgets_xid, forgets_transaction, forgets_request, shortens,
  start, then_,
}
use standalone_dhcp.Discover.Settings.{
  Settings, settings_of, hwcache_delete-settings, OutcomeKeeps, choose_index-settings,
}
use standalone_dhcp.Request.Settings.{serve_request-settings}

module _ (lib : Lib) where
  open lib use {ints, world, dhcp4}

  give_back-settings :
      (m : Message lib) (index : ℤ) (s : State lib)
      → settings_of lib (give_back lib m index s) ≡ settings_of lib s
  unfolding give_back quarantine
  give_back-settings m index s = elim (Option-cases (ints.get s.handler.hwcache m.client)) [
    | inl missing ↦ rw (missing, give_back) refl
    | inr (x, e) ↦ elim (Bool-cases (index == x)) [
      | inr other ↦ rw (e, give_back, other) refl
      | inl same ↦
          elim (Bool-cases ((get_mac_index (safe_int_to_uint64 x) (pool_of lib s)).1 == m.client)) [
            | inl own ↦ rw (e, give_back, same, own) refl
            | inr taken ↦ rw (e, give_back, same, taken) refl
          ]
    ]
  ]

  serve_release-settings :
      (m : Message lib) (s : State lib)
      → settings_of lib (serve_release lib m s).1 ≡ settings_of lib s
  unfolding serve_release
  serve_release-settings m s = elim (Bool-cases (length (to4 (requested_ip lib m)) == 0)) [
    | inl odd ↦ rw odd refl
    | inr good ↦ elim (Bool-cases (in_range lib (lease_num lib (requested_ip lib m) s) s)) [
      | inl inside ↦
          rw (good, inside) (give_back-settings m (lease_num lib (requested_ip lib m) s) s)
      | inr outside ↦ rw (good, outside) refl
    ]
  ]

  fire-settings :
      (now : ℕ) (t : Timer) (s : State lib) → settings_of lib (fire lib now t s) ≡ settings_of lib s
  unfolding fire
  fire-settings now (free_index delay index) s = refl
  fire-settings now (forget client) s = hwcache_delete-settings lib client s

  make_offer-settings :
      (m : Message lib) (network_ip : String) (f : ℤ) (s : State lib)
      → settings_of lib (make_offer lib m network_ip f s).1 ≡ settings_of lib s
  unfolding make_offer
  make_offer-settings m network_ip f s =
      elim (Option-cases
        (build_reply_options lib s.handler.options m.chaddr network_ip m.client s.store)) [
          | inl panic ↦ rw (panic, make_offer) refl
          | inr ((store', options), e) ↦ rw (e, make_offer) refl
        ]

  abbrev ResultKeeps : Settings lib → Option (Answer lib × State lib) → Type 0
  ResultKeeps x none = Unit
  ResultKeeps x (some (a, s)) = settings_of lib s ≡ x

  answer_discover-settings :
      (m : Message lib) (network_ip : String) (x : Settings lib) (o : Option (Outcome (State lib)))
      → OutcomeKeeps lib x o
      → ResultKeeps x (answer_discover lib m network_ip o)
  answer_discover-settings m network_ip x none h = tt
  answer_discover-settings m network_ip x (some (offers f s)) h =
      make_offer-settings m network_ip f s ∙ h
  answer_discover-settings m network_ip x (some (silent s)) h = h
  answer_discover-settings m network_ip x (some (panics s)) h = h

  dispatch-settings :
      (fuel : ℕ) (i : Interface lib) (server : IpAddr) (network_ip : String) (t : MessageType)
      (m : Message lib) (s : State lib)
      → ResultKeeps (settings_of lib s) (dispatch lib fuel i server network_ip t m s)
  unfolding dispatch
  dispatch-settings fuel i server network_ip discover m s =
      answer_discover-settings m network_ip (settings_of lib s) _
        (choose_index-settings lib fuel (discover_of lib i server m) s)
  dispatch-settings fuel i server network_ip request m s = serve_request-settings lib m network_ip s
  dispatch-settings fuel i server network_ip inform m s = serve_request-settings lib m network_ip s
  dispatch-settings fuel i server network_ip release m s = serve_release-settings m s
  dispatch-settings fuel i server network_ip decline m s = serve_release-settings m s
  dispatch-settings fuel i server network_ip offer m s = refl
  dispatch-settings fuel i server network_ip ack m s = refl
  dispatch-settings fuel i server network_ip nak m s = refl

  serve_once-settings :
      (fuel : ℕ) (i : Interface lib) (server : IpAddr) (network_ip : String) (t : MessageType)
      (m : Message lib) (s : State lib)
      → ResultKeeps (settings_of lib s) (serve_once lib fuel i server network_ip t m s)
  unfolding serve_once
  serve_once-settings fuel i server network_ip t m s =
      elim (Bool-cases (is_some (ints.get s.transactions m.cache_key))) [
        | inl seen ↦ rw seen refl
        | inr new ↦ rw new (
            dispatch-settings fuel i server network_ip t m
              (record s { transactions = ints.set s.transactions m.cache_key (pos 1) (pos 1) }))
      ]

  Step-settings : {s t : State lib} → Step lib s t → settings_of lib t ≡ settings_of lib s
  Step-settings {s} (serves fuel i server network_ip t m a s' e) =
      subst (ResultKeeps (settings_of lib s)) e (serve_once-settings fuel i server network_ip t m s)
  Step-settings {s} (wakes now t before after e) =
      fire-settings now t (record s { timers = before ++ after })
  Step-settings {s} (expires client) = hwcache_delete-settings lib client s
  Step-settings {s} (forgets_xid k) = refl
  Step-settings {s} (forgets_transaction k) = refl
  Step-settings {s} (forgets_request k) = refl
  Step-settings {s} (shortens client x e) = refl

  -- However packets, goroutines, expiries and releases through the API follow each other on a
  -- network, its settings stay: its address, its options, the start, the size and the lease time of
  -- its range, its role, and the addresses that are kept out or assigned.
  pub Run-settings : {s t : State lib} → Run lib s t → settings_of lib t ≡ settings_of lib s
  Run-settings start = refl
  Run-settings (then_ r step) = Step-settings step ∙ Run-settings r
