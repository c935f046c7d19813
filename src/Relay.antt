-- ===== src/Relay.antt =====
-- interface.go, `ServeDHCP`, the block `DHCP Relay`: the packet that a relay passes on.
pub mod Headers
pub mod Options
pub mod Copies
pub mod Forwarded
use standalone_dhcp.Prelude.{ℕ, false, Option, none, some, List, [], ◌∷◌}
use standalone_dhcp.Net.{IpAddr}
use standalone_dhcp.Convert.{Bytes}
use standalone_dhcp.Dhcp.{
  Lib, MessageType, discover, offer, request, decline, ack, nak, release, inform,
}
use standalone_dhcp.Handler.{Answer}

module _ (lib : Lib) where
  open lib use {dhcp4}

  abbrev pub add_options : List (ℕ × Bytes) → dhcp4.Packet → dhcp4.Packet
  add_options [] p = p
  add_options ((k, v) ∷ rest) p = add_options rest (dhcp4.add_option k v p)

  -- The options of the packet that came, added to the new one in the order of the iteration.
  abbrev pub copy_options : dhcp4.Packet → dhcp4.Packet → dhcp4.Packet
  copy_options p p2 = add_options (dhcp4.parse_options p) p2

  unfoldable pub relay_discover : IpAddr → dhcp4.Packet → dhcp4.Packet
  relay_discover address p =
      let a = dhcp4.set_chaddr (dhcp4.chaddr p) (dhcp4.new_packet 1) in
      let b = dhcp4.set_giaddr address a in
      let c = dhcp4.set_xid (dhcp4.xid p) b in copy_options p (dhcp4.set_broadcast false c)

  unfoldable pub relay_request : IpAddr → dhcp4.Packet → dhcp4.Packet
  relay_request address p =
      let a = dhcp4.set_chaddr (dhcp4.chaddr p) (dhcp4.new_packet 1) in
      let b = dhcp4.set_file (dhcp4.file p) a in
      let c = dhcp4.set_ciaddr (dhcp4.ciaddr p) b in
      let d = dhcp4.set_siaddr (dhcp4.siaddr p) c in
      let e = dhcp4.set_giaddr address d in
      let f = dhcp4.set_xid (dhcp4.xid p) e in copy_options p (dhcp4.set_broadcast false f)

  abbrev reply_head : dhcp4.Packet → dhcp4.Packet
  reply_head p =
      let a = dhcp4.set_xid (dhcp4.xid p) (dhcp4.new_packet 2) in
      let b = dhcp4.set_file (dhcp4.file p) a in dhcp4.set_flags (dhcp4.flags p) b

  abbrev reply_tail : dhcp4.Packet → dhcp4.Packet → dhcp4.Packet
  reply_tail p p2 =
      copy_options p (dhcp4.set_secs (dhcp4.secs p) (dhcp4.set_chaddr (dhcp4.chaddr p) p2))

  unfoldable pub relay_offer : dhcp4.Packet → dhcp4.Packet
  relay_offer p =
      let a = dhcp4.set_yiaddr (dhcp4.yiaddr p) (reply_head p) in
      let b = dhcp4.set_giaddr (dhcp4.giaddr p) a in
      reply_tail p (dhcp4.set_siaddr (dhcp4.siaddr p) b)

  unfoldable pub relay_ack : dhcp4.Packet → dhcp4.Packet
  relay_ack p =
      let a = dhcp4.set_siaddr (dhcp4.siaddr p) (reply_head p) in
      let b = dhcp4.set_yiaddr (dhcp4.yiaddr p) a in
      reply_tail p (dhcp4.set_giaddr (dhcp4.giaddr p) b)

  abbrev relayed : IpAddr → IpAddr → dhcp4.Packet → Option dhcp4.Packet → Answer lib
  relayed address ip p p2 = record { d = p2; ip = ip; mac = dhcp4.chaddr p; src_ip = address }

  unfoldable pub relay : MessageType → IpAddr → dhcp4.Packet → Answer lib
  relay discover address p = relayed address [] p (some (relay_discover address p))
  relay offer address p = relayed address (dhcp4.siaddr p) p (some (relay_offer p))
  relay request address p = relayed address [] p (some (relay_request address p))
  relay ack address p = relayed address [] p (some (relay_ack p))
  relay nak address p = relayed address [] p (some (relay_ack p))
  relay release address p = relayed address [] p (some (relay_request address p))
  relay decline address p = relayed address [] p (some (relay_request address p))
  relay inform address p = relayed address [] p none
