-- ===== src/Request.antt =====
-- interface.go, `ServeDHCP`, the cases `dhcp.Request` and `dhcp.Inform`: which requests are
-- acknowledged, and what an acknowledgement writes.

pub mod Settings
pub mod Grant
pub mod Answers
use standalone_dhcp.Prelude.{
  ℕ, zero, suc, ◌+◌, ◌/◌, ◌%◌, Bool, true, false, not, ◌&&◌, Option, none, some, String, List, [],
  ◌∷◌, ◌==◌, nat_eq, string_eq, if◌then◌else◌, length, is_some,
}
use standalone_dhcp.Prelude.Int.{◌+ℤ◌, ℤ, pos, negsuc, int_eq, ◌-ℤ◌, ltb_ℤ}
use standalone_dhcp.Prelude.Map.{Map, lookup}
use standalone_dhcp.Net.{IpAddr, to4, ip_equal, ipv4, ipv4_zero}
use standalone_dhcp.Convert.{Bytes}
use standalone_dhcp.Pool.{get_mac_index, reserve_ip_index}
use standalone_dhcp.Utils.{safe_int_to_uint64}
use standalone_dhcp.Dhcp.{Lib, MessageType, ack, nak}
use standalone_dhcp.Handler.{
  State, Handler, Answer, be_uint32, ip_string, decimal_text, with_pool, with_hwcache, pool_of,
  hwcache_delete, build_reply_options,
}

-- A server identifier of four bytes that is not this server's.
unfoldable pub is_foreign : Option Bytes → IpAddr → Bool
is_foreign (some (a ∷ b ∷ c ∷ d ∷ [])) ip = not (ip_equal (ipv4 a b c d) (to4 ip))
is_foreign _ ip = false

module _ (lib : Lib) where
  open lib use {dhcp4, ints, texts, world}

  -- What the packet brings, with the texts that the code makes of it.
  pub record Message : Type 0 where
    pub packet : dhcp4.Packet
    pub client : String
    pub chaddr : Bytes
    pub options : Map ℕ Bytes
    pub cache_key : String
    pub xid_key : String
    pub if_address : IpAddr

  -- What is known of a request: `Answer{}` is returned, or the answer as it stands, or the values of
  -- `Reply` and `Index`.
  pub data Verdict : Type 0 where
    withdrawn : State lib → Verdict
    repeated : State lib → Verdict
    decided : Bool → ℤ → State lib → Verdict

  -- The address of option 50, or the client's own.
  unfoldable pub requested_ip : Message → IpAddr
  requested_ip m = elim (lookup 50 m.options) [ some ip ↦ ip | none ↦ dhcp4.ciaddr m.packet ]

  unfoldable pub lease_num : IpAddr → State lib → ℤ
  lease_num ip s = dhcp4.ip_range s.handler.start ip -ℤ pos 1

  unfoldable pub in_range : ℤ → State lib → Bool
  in_range n s = not (ltb_ℤ n (pos 0)) && ltb_ℤ n s.handler.lease_range

  unfoldable pub claim_static : ℕ → ℤ → State lib → Verdict
  claim_static position n s =
      if pos position == n then decided true (pos position) s else decided false (pos 0) s

  -- The client asks for something else than it was offered.
  unfoldable pub drop_offer : Message → State lib → State lib
  drop_offer m s = elim (ints.get s.handler.xid m.xid_key) [
    | none ↦ s
    | some v ↦ if v == pos 1 then hwcache_delete lib m.client s else s
  ]

  -- One answer a second to the same request.
  unfoldable pub remember_request : Message → State lib → State lib
  remember_request m s = record s { requests = ints.set s.requests m.cache_key (pos 1) (pos 1) }

  unfoldable pub claim_cached : Message → IpAddr → ℤ → State lib → Verdict
  claim_cached m ip index s =
      if ip_equal (dhcp4.ip_add s.handler.start index) ip
      then (if is_some (ints.get s.requests m.cache_key)
          then repeated s
          else if (get_mac_index (safe_int_to_uint64 index) (pool_of lib s)).1 == m.client
          then decided true index (remember_request m s)
          else decided false (pos 0) (remember_request m s))
      else decided false (pos 0) (drop_offer m s)

  -- From `Valid IP` to the test of `Reply`.
  unfoldable pub judge : Message → IpAddr → State lib → Verdict
  judge m ip s =
      if in_range (lease_num ip s) s
      then elim (lookup m.client s.handler.ip_assigned) [
        | some position ↦ claim_static position (lease_num ip s) s
        | none ↦ elim (ints.get s.handler.hwcache m.client) [
          | none ↦ withdrawn s
          | some index ↦ claim_cached m ip index s
        ]
      ]
      else decided false (pos 0) s

  -- The zero value, `Answer{}`.
  abbrev pub no_answer : Answer lib
  no_answer = record { d = none; ip = []; mac = []; src_ip = [] }

  -- The answer without a packet, and with one.
  abbrev pub to_client : Message → IpAddr → Option dhcp4.Packet → Answer lib
  to_client m address packet = record {
    d = packet;
    ip = address;
    mac = m.chaddr;
    src_ip = m.if_address;
  }

  abbrev pub nak_packet : Message → State lib → dhcp4.Packet
  nak_packet m s = dhcp4.reply_packet m.packet nak (to4 s.handler.ip) [] (pos 0) []

  -- What an acknowledgement writes: the two caches that the API reads, the cache of the handler, and
  -- the pool.
  unfoldable pub record_lease : Message → IpAddr → ℤ → State lib → State lib
  record_lease m address index s =
      let ttl = s.handler.lease_duration +ℤ pos 15 in
      let text = ip_string world.long_string address in
      let s' = record s {
        ips = texts.set s.ips text m.client ttl;
        macs = texts.set s.macs m.client text ttl;
      } in
      let s'' = with_hwcache lib (ints.set s.handler.hwcache m.client index ttl) s' in
      with_pool lib (reserve_ip_index (safe_int_to_uint64 index) m.client (pool_of lib s'')).0 s''

  -- The acknowledgement; a panic on the way is recovered, and nothing is sent.
  unfoldable pub acknowledge : Message → String → IpAddr → ℤ → State lib → Answer lib × State lib
  acknowledge m network_ip address index s =
      elim (build_reply_options lib s.handler.options m.chaddr network_ip m.client s.store) [
        | none ↦ (to_client m address none, s)
        | some (store', options) ↦ (
          to_client m address (
              some (
                dhcp4.reply_packet m.packet ack (to4 s.handler.ip) address s.handler.lease_duration
                  (dhcp4.select_order_or_all options (lookup 55 options)))),
          record_lease m address index (record s { store = store' }),
        )
      ]

  unfoldable pub conclude : Message → String → IpAddr → Verdict → Answer lib × State lib
  conclude m network_ip address (withdrawn s) = (no_answer, s)
  conclude m network_ip address (repeated s) = (to_client m address none, s)
  conclude m network_ip address (decided true index s) = acknowledge m network_ip address index s
  conclude m network_ip address (decided false index s) =
      (to_client m address (some (nak_packet m s)), s)

  -- The whole case. What is no address of four bytes falls to the refusal at the end of the function.
  unfoldable pub serve_request : Message → String → State lib → Answer lib × State lib
  serve_request m network_ip s =
      let address = requested_ip m in
      if is_foreign (lookup 54 m.options) s.handler.ip
      then (no_answer, s)
      else if length address == 4 && not (ip_equal address ipv4_zero)
      then conclude m network_ip address (judge m address s)
      else (to_client m address (some (nak_packet m s)), s)
