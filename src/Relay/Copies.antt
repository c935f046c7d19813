-- ===== src/Relay/Copies.antt =====
-- interface.go, `ServeDHCP`, the block `DHCP Relay`: the fields of each packet that a relay makes.
use standalone_dhcp.Prelude.{ℕ, ◌≡◌, Bool, true, false, nat_eq, length}
use standalone_dhcp.Net.{IpAddr, to4}
use standalone_dhcp.Convert.{Bytes}
use standalone_dhcp.Dhcp.{Lib}
use standalone_dhcp.Relay.{relay_discover, relay_request, relay_offer, relay_ack}
use standalone_dhcp.Relay.Headers.{Header, IsPacketApi}
use standalone_dhcp.Relay.Options.{fields, step, copy_options_lem}

module _ (lib : Lib) (is_packet is_whole : lib.dhcp4.Packet → Bool)
    (api : IsPacketApi lib.dhcp4 is_packet is_whole) where
  open lib use {dhcp4}

  abbrev pub blank : ℕ → Header
  blank n = fields lib is_packet is_whole api (dhcp4.new_packet n)

  -- A request keeps the client, the transaction and the options, and names the relay.
  abbrev pub asked : dhcp4.Packet → IpAddr → Bytes → Header
  asked p address f = record (blank 1) {
    chaddr = (fields lib is_packet is_whole api p).chaddr;
    giaddr = to4 address;
    xid = (fields lib is_packet is_whole api p).xid;
    flags = f;
    options = (fields lib is_packet is_whole api p).options;
  }

  pub relay_discover_lem :
      (address : IpAddr) (p : dhcp4.Packet)
      → is_packet p ≡ true
      → length (to4 address) ≡ 4
      → (f : Bytes) × (fields lib is_packet is_whole api (relay_discover lib address p)
          ≡ asked p address f)
  unfolding relay_discover
  relay_discover_lem address p ok short =
      let w = api.whole_new 1 in
      let a = dhcp4.set_chaddr (dhcp4.chaddr p) (dhcp4.new_packet 1) in
      let b = dhcp4.set_giaddr address a in
      let c = dhcp4.set_xid (dhcp4.xid p) b in
      let d = dhcp4.set_broadcast false c in
      let ea = api.set_chaddr_lem p (dhcp4.new_packet 1) ok w in
      let eb =
        step lib is_packet is_whole api (λ x. record x { giaddr = to4 address }) a b _ ea w
          (λ k. api.set_giaddr_short address a short k) in
      let ec =
        step lib is_packet is_whole api (λ x. record x { xid = dhcp4.xid p }) b c _ eb w
          (λ k. api.set_xid_lem p b ok k) in
      let ed =
        step lib is_packet is_whole api (λ x. record x { flags = dhcp4.flags d }) c d _ ec w
          (λ k. api.set_broadcast_lem false c k) in
      (dhcp4.flags d, copy_options_lem lib is_packet is_whole api p d _ ed w (api.options_new 1))

  pub relay_request_lem :
      (address : IpAddr) (p : dhcp4.Packet)
      → is_packet p ≡ true
      → length (to4 address) ≡ 4
      → (f : Bytes) × (fields lib is_packet is_whole api (relay_request lib address p)
          ≡ record (asked p address f) {
            file = (fields lib is_packet is_whole api p).file;
            ciaddr = (fields lib is_packet is_whole api p).ciaddr;
            siaddr = (fields lib is_packet is_whole api p).siaddr;
          })
  unfolding relay_request
  relay_request_lem address p ok short =
      let w = api.whole_new 1 in
      let a = dhcp4.set_chaddr (dhcp4.chaddr p) (dhcp4.new_packet 1) in
      let b = dhcp4.set_file (dhcp4.file p) a in
      let c = dhcp4.set_ciaddr (dhcp4.ciaddr p) b in
      let d = dhcp4.set_siaddr (dhcp4.siaddr p) c in
      let e = dhcp4.set_giaddr address d in
      let f = dhcp4.set_xid (dhcp4.xid p) e in
      let g = dhcp4.set_broadcast false f in
      let ea = api.set_chaddr_lem p (dhcp4.new_packet 1) ok w in
      let eb =
        step lib is_packet is_whole api (λ x. record x { file = dhcp4.file p }) a b _ ea w
          (λ k. api.set_file_lem p a ok k) in
      let ec =
        step lib is_packet is_whole api (λ x. record x { ciaddr = dhcp4.ciaddr p }) b c _ eb w
          (λ k. api.set_ciaddr_lem p b ok k) in
      let ed =
        step lib is_packet is_whole api (λ x. record x { siaddr = dhcp4.siaddr p }) c d _ ec w
          (λ k. api.set_siaddr_lem p c ok k) in
      let ee =
        step lib is_packet is_whole api (λ x. record x { giaddr = to4 address }) d e _ ed w
          (λ k. api.set_giaddr_short address d short k) in
      let ef =
        step lib is_packet is_whole api (λ x. record x { xid = dhcp4.xid p }) e f _ ee w
          (λ k. api.set_xid_lem p e ok k) in
      let eg =
        step lib is_packet is_whole api (λ x. record x { flags = dhcp4.flags g }) f g _ ef w
          (λ k. api.set_broadcast_lem false f k) in
      (dhcp4.flags g, copy_options_lem lib is_packet is_whole api p g _ eg w (api.options_new 1))

  -- A reply keeps all but four fields.
  abbrev pub replied : dhcp4.Packet → Header
  replied p = record (fields lib is_packet is_whole api p) {
    whole = (blank 2).whole;
    htype = (blank 2).htype;
    hops = (blank 2).hops;
    ciaddr = (blank 2).ciaddr;
    sname = (blank 2).sname;
  }

  pub relay_offer_lem :
      (p : dhcp4.Packet)
      → is_packet p ≡ true
      → fields lib is_packet is_whole api (relay_offer lib p) ≡ replied p
  unfolding relay_offer
  relay_offer_lem p ok =
      let w = api.whole_new 2 in
      let a = dhcp4.set_xid (dhcp4.xid p) (dhcp4.new_packet 2) in
      let b = dhcp4.set_file (dhcp4.file p) a in
      let c = dhcp4.set_flags (dhcp4.flags p) b in
      let d = dhcp4.set_yiaddr (dhcp4.yiaddr p) c in
      let e = dhcp4.set_giaddr (dhcp4.giaddr p) d in
      let f = dhcp4.set_siaddr (dhcp4.siaddr p) e in
      let g = dhcp4.set_chaddr (dhcp4.chaddr p) f in
      let h = dhcp4.set_secs (dhcp4.secs p) g in
      let ea = api.set_xid_lem p (dhcp4.new_packet 2) ok w in
      let eb =
        step lib is_packet is_whole api (λ x. record x { file = dhcp4.file p }) a b _ ea w
          (λ k. api.set_file_lem p a ok k) in
      let ec =
        step lib is_packet is_whole api (λ x. record x { flags = dhcp4.flags p }) b c _ eb w
          (λ k. api.set_flags_lem p b ok k) in
      let ed =
        step lib is_packet is_whole api (λ x. record x { yiaddr = dhcp4.yiaddr p }) c d _ ec w
          (λ k. api.set_yiaddr_lem p c ok k) in
      let ee =
        step lib is_packet is_whole api (λ x. record x { giaddr = dhcp4.giaddr p }) d e _ ed w
          (λ k. api.set_giaddr_lem p d ok k) in
      let ef =
        step lib is_packet is_whole api (λ x. record x { siaddr = dhcp4.siaddr p }) e f _ ee w
          (λ k. api.set_siaddr_lem p e ok k) in
      let eg =
        step lib is_packet is_whole api (λ x. record x { chaddr = dhcp4.chaddr p }) f g _ ef w
          (λ k. api.set_chaddr_lem p f ok k) in
      let eh =
        step lib is_packet is_whole api (λ x. record x { secs = dhcp4.secs p }) g h _ eg w
          (λ k. api.set_secs_lem p g ok k) in
      copy_options_lem lib is_packet is_whole api p h _ eh w (api.options_new 2)

  pub relay_ack_lem :
      (p : dhcp4.Packet)
      → is_packet p ≡ true
      → fields lib is_packet is_whole api (relay_ack lib p) ≡ replied p
  unfolding relay_ack
  relay_ack_lem p ok =
      let w = api.whole_new 2 in
      let a = dhcp4.set_xid (dhcp4.xid p) (dhcp4.new_packet 2) in
      let b = dhcp4.set_file (dhcp4.file p) a in
      let c = dhcp4.set_flags (dhcp4.flags p) b in
      let d = dhcp4.set_siaddr (dhcp4.siaddr p) c in
      let e = dhcp4.set_yiaddr (dhcp4.yiaddr p) d in
      let f = dhcp4.set_giaddr (dhcp4.giaddr p) e in
      let g = dhcp4.set_chaddr (dhcp4.chaddr p) f in
      let h = dhcp4.set_secs (dhcp4.secs p) g in
      let ea = api.set_xid_lem p (dhcp4.new_packet 2) ok w in
      let eb =
        step lib is_packet is_whole api (λ x. record x { file = dhcp4.file p }) a b _ ea w
          (λ k. api.set_file_lem p a ok k) in
      let ec =
        step lib is_packet is_whole api (λ x. record x { flags = dhcp4.flags p }) b c _ eb w
          (λ k. api.set_flags_lem p b ok k) in
      let ed =
        step lib is_packet is_whole api (λ x. record x { siaddr = dhcp4.siaddr p }) c d _ ec w
          (λ k. api.set_siaddr_lem p c ok k) in
      let ee =
        step lib is_packet is_whole api (λ x. record x { yiaddr = dhcp4.yiaddr p }) d e _ ed w
          (λ k. api.set_yiaddr_lem p d ok k) in
      let ef =
        step lib is_packet is_whole api (λ x. record x { giaddr = dhcp4.giaddr p }) e f _ ee w
          (λ k. api.set_giaddr_lem p e ok k) in
      let eg =
        step lib is_packet is_whole api (λ x. record x { chaddr = dhcp4.chaddr p }) f g _ ef w
          (λ k. api.set_chaddr_lem p f ok k) in
      let eh =
        step lib is_packet is_whole api (λ x. record x { secs = dhcp4.secs p }) g h _ eg w
          (λ k. api.set_secs_lem p g ok k) in
      copy_options_lem lib is_packet is_whole api p h _ eh w (api.options_new 2)
