-- ===== src/Request/Answers.antt =====
-- interface.go: the answers to a REQUEST or an INFORM, and what each of them leaves behind.
use standalone_dhcp.Prelude.{
  ℕ, ◌≡◌, ◌⊎◌, inl, inr, refl, ap, ◌∙◌, true, false, not, ◌&&◌, none, some, String, ◌==◌, string_eq,
  nat_eq, if◌then◌else◌, Bool-cases, Option-cases, beq_self, length,
}
use standalone_dhcp.Prelude.Int.{ℤ, pos, ◌+ℤ◌}
use standalone_dhcp.Prelude.Map.{Map, lookup}
use standalone_dhcp.Net.{IpAddr, to4, ip_equal, ipv4_zero}
use standalone_dhcp.Convert.{Bytes}
use standalone_dhcp.Override.{Store}
use standalone_dhcp.Pool.{reserve_ip_index}
use standalone_dhcp.Utils.{safe_int_to_uint64}
use standalone_dhcp.Dhcp.{Lib, ack}
use standalone_dhcp.Handler.{State, Handler, Answer, pool_of, build_reply_options}
use standalone_dhcp.Request.{
  Message, Verdict, withdrawn, repeated, decided, lease_num, in_range, nak_packet, record_lease,
  acknowledge, conclude, serve_request, is_foreign, requested_ip, to_client,
}
use standalone_dhcp.Request.Grant.{IsStatic, IsLeased, IsSound, judge-IsSound}

module _ (lib : Lib) where
  open lib use {dhcp4, ints, sql}

  -- The acknowledgement of an address, with the options that are selected from those of the reply.
  abbrev pub ack_packet : Message lib → IpAddr → State lib → Map ℕ Bytes → dhcp4.Packet
  ack_packet m ip s options =
      dhcp4.reply_packet m.packet ack (to4 s.handler.ip) ip s.handler.lease_duration
        (dhcp4.select_order_or_all options (lookup 55 options))

  -- The options of the reply are those of the network and the overrides.
  abbrev pub IsAck : Message lib → String → IpAddr → State lib → Answer lib → Type 0
  IsAck m network_ip ip s a =
      (store : Store sql) × (options : Map ℕ Bytes) × (build_reply_options lib s.handler.options
          m.chaddr network_ip m.client s.store
        ≡ some (store, options))
      × (a ≡ to_client lib m ip (some (ack_packet m ip s options)))

  -- A grant: an acknowledgement goes to the client. The index is the client's by the configuration
  -- or by its offer, the cache has it afterwards, and the pool is asked to hold it.
  abbrev pub IsGranted :
      Message lib → String → IpAddr → ℤ → State lib → Answer lib × State lib → Type 0
  IsGranted m network_ip ip index s (a, s') =
      IsAck m network_ip ip s a
      × (in_range lib (lease_num lib ip s) s ≡ true)
      × (IsStatic lib m ip index s ⊎ IsLeased lib m ip index s)
      × (ints.get s'.handler.hwcache m.client ≡ some index)
      × (pool_of lib s' ≡ (reserve_ip_index (safe_int_to_uint64 index) m.client (pool_of lib s)).0)

  abbrev pub IsAnswered :
      Message lib → String → IpAddr → State lib → Answer lib × State lib → Type 0
  IsAnswered m network_ip ip s r =
      ((r.0.d ≡ none) × (pool_of lib r.1 ≡ pool_of lib s))
      ⊎ (((r.0.d ≡ some (nak_packet lib m r.1)) × (pool_of lib r.1 ≡ pool_of lib s))
          ⊎ ((index : ℤ) × IsGranted m network_ip ip index s r))

  record_lease-cached :
      (m : Message lib) (ip : IpAddr) (index : ℤ) (s : State lib)
      → ints.get (record_lease lib m ip index s).handler.hwcache m.client ≡ some index
  unfolding record_lease
  record_lease-cached m ip index s =
      ints.get-set s.handler.hwcache m.client index (s.handler.lease_duration +ℤ pos 15) m.client
      ∙ ap (λ b. if b then some index else ints.get s.handler.hwcache m.client) (beq_self m.client)

  record_lease-pool :
      (m : Message lib) (ip : IpAddr) (index : ℤ) (s : State lib)
      → pool_of lib (record_lease lib m ip index s)
        ≡ (reserve_ip_index (safe_int_to_uint64 index) m.client (pool_of lib s)).0
  unfolding record_lease
  record_lease-pool m ip index s = refl

  acknowledge-IsAnswered :
      (m : Message lib) (network_ip : String) (ip : IpAddr) (index : ℤ) (s s' : State lib)
      → IsSound lib m ip s (decided true index s')
      → IsAnswered m network_ip ip s (acknowledge lib m network_ip ip index s')
  unfolding acknowledge
  acknowledge-IsAnswered m network_ip ip index s s' (inside, (same, stored), h) =
      elim (Option-cases
        (build_reply_options lib s'.handler.options m.chaddr network_ip m.client s'.store)) [
          | inl panic ↦
              inl (rw (panic, acknowledge) (refl, ap (λ (h : Handler lib). h.available) same))
          | inr ((store', options), e) ↦
              let t : State lib = record s' { store = store' } in
              inr (
                inr (
                  index,
                  rw (e, acknowledge)
                      (
                        (
                          store',
                          options,
                          (rw (same, stored) at e),
                          ap
                              (λ (g : Handler lib). to_client lib m ip (
                                some (
                                  dhcp4.reply_packet m.packet ack (to4 g.ip) ip g.lease_duration
                                    (dhcp4.select_order_or_all options (lookup 55 options)))))
                              same,
                        ),
                        inside,
                        h,
                        record_lease-cached m ip index t,
                        record_lease-pool m ip index t
                            ∙ ap (λ p. (reserve_ip_index (safe_int_to_uint64 index) m.client p).0)
                                (ap (λ (g : Handler lib). g.available) same),
                      ),
                ))
        ]

  conclude-IsAnswered :
      (m : Message lib) (network_ip : String) (ip : IpAddr) (s : State lib) (v : Verdict lib)
      → IsSound lib m ip s v
      → IsAnswered m network_ip ip s (conclude lib m network_ip ip v)
  unfolding conclude
  conclude-IsAnswered m network_ip ip s (withdrawn s') e = inl (refl, ap (pool_of lib) e)
  conclude-IsAnswered m network_ip ip s (repeated s') e = inl (refl, ap (pool_of lib) e)
  conclude-IsAnswered m network_ip ip s (decided true index s') h =
      acknowledge-IsAnswered m network_ip ip index s s' h
  conclude-IsAnswered m network_ip ip s (decided false index s') e = inr (inl (refl, e))

  -- A request leads to no packet, to a refusal, or to a grant of an index. The first two leave the
  -- pool as it is. A grant goes to the client as the acknowledgement of the address that it asks
  -- for, with the server, the lease time and the options of the network and its overrides. It is
  -- for an address in the range, of an index that is the client's by the configuration, or by the
  -- cache and the pool together; afterwards the cache has the index for the client, and the pool
  -- has been asked to hold it.
  pub serve_request-IsAnswered :
      (m : Message lib) (network_ip : String) (s : State lib)
      → IsAnswered m network_ip (requested_ip lib m) s (serve_request lib m network_ip s)
  unfolding serve_request
  serve_request-IsAnswered m network_ip s =
      elim (Bool-cases (is_foreign (lookup 54 m.options) s.handler.ip)) [
        | inl foreign ↦ rw foreign (inl (refl, refl))
        | inr ours ↦
            elim (Bool-cases
              (length (requested_ip lib m) == 4 && not (ip_equal (requested_ip lib m) ipv4_zero))) [
                | inr odd ↦ rw (ours, odd) (inr (inl (refl, refl)))
                | inl sound ↦
                    rw (ours, sound)
                      (conclude-IsAnswered m network_ip (requested_ip lib m) s _
                        (judge-IsSound lib m (requested_ip lib m) s))
              ]
      ]
