-- ===== src/Relay/Forwarded.antt =====
-- interface.go, `ServeDHCP`, the block `DHCP Relay`: what a relay passes on.
use standalone_dhcp.Prelude.{◌≡◌, refl, Bool, true, Option, none, some, length}
use standalone_dhcp.Net.{IpAddr, to4}
use standalone_dhcp.Convert.{Bytes}
use standalone_dhcp.Dhcp.{
  Lib, MessageType, discover, offer, request, decline, ack, nak, release, inform,
}
use standalone_dhcp.Relay.{relay}
use standalone_dhcp.Relay.Headers.{IsPacketApi}
use standalone_dhcp.Relay.Options.{fields}
use standalone_dhcp.Relay.Copies.{
  asked, replied, relay_discover_lem, relay_request_lem, relay_offer_lem, relay_ack_lem,
}

module _ (lib : Lib) (is_packet is_whole : lib.dhcp4.Packet → Bool)
    (api : IsPacketApi lib.dhcp4 is_packet is_whole) where
  open lib use {dhcp4}

  -- A request with the addresses and the file that it came with.
  abbrev pub IsRequest : IpAddr → dhcp4.Packet → Option dhcp4.Packet → Type 0
  IsRequest address p none = ⊥
  IsRequest address p (some q) =
      (f : Bytes) × (fields lib is_packet is_whole api q
        ≡ record (asked lib is_packet is_whole api p address f) {
          file = (fields lib is_packet is_whole api p).file;
          ciaddr = (fields lib is_packet is_whole api p).ciaddr;
          siaddr = (fields lib is_packet is_whole api p).siaddr;
        })

  abbrev pub IsReply : dhcp4.Packet → Option dhcp4.Packet → Type 0
  IsReply p none = ⊥
  IsReply p (some q) = fields lib is_packet is_whole api q ≡ replied lib is_packet is_whole api p

  -- The packet that is passed on, if there is one.
  abbrev pub IsForwarded : MessageType → IpAddr → dhcp4.Packet → Option dhcp4.Packet → Type 0
  IsForwarded discover address p none = ⊥
  IsForwarded discover address p (some q) =
      (f : Bytes) × (fields lib is_packet is_whole api q
        ≡ asked lib is_packet is_whole api p address f)
  IsForwarded offer address p r = IsReply p r
  IsForwarded request address p r = IsRequest address p r
  IsForwarded decline address p r = IsRequest address p r
  IsForwarded ack address p r = IsReply p r
  IsForwarded nak address p r = IsReply p r
  IsForwarded release address p r = IsRequest address p r
  IsForwarded inform address p r = r ≡ none

  -- For a packet that has the bytes of all fields, and a relay whose address has a short form: an
  -- INFORM is not passed on. The packet of every other message has the hardware address, the
  -- transaction and all options of the one that came. A DISCOVER, a REQUEST, a RELEASE and a
  -- DECLINE have the address of the relay in `giaddr`, and the last three also the client's own
  -- address, the server and the file; their other fields but the flags are those of a new request.
  -- An OFFER, an ACK and a NAK have every field of the one that came, except `ciaddr`, `hops`,
  -- `htype` and `sname`, which are those of a new reply. The answer is for the client of the
  -- packet.
  pub relay-IsForwarded :
      (t : MessageType) (address : IpAddr) (p : dhcp4.Packet)
      → is_packet p ≡ true
      → length (to4 address) ≡ 4
      → IsForwarded t address p (relay lib t address p).d
        × ((relay lib t address p).mac ≡ dhcp4.chaddr p)
  unfolding relay
  relay-IsForwarded discover address p ok short =
      (relay_discover_lem lib is_packet is_whole api address p ok short, refl)
  relay-IsForwarded offer address p ok short =
      (relay_offer_lem lib is_packet is_whole api p ok, refl)
  relay-IsForwarded request address p ok short =
      (relay_request_lem lib is_packet is_whole api address p ok short, refl)
  relay-IsForwarded decline address p ok short =
      (relay_request_lem lib is_packet is_whole api address p ok short, refl)
  relay-IsForwarded ack address p ok short = (relay_ack_lem lib is_packet is_whole api p ok, refl)
  relay-IsForwarded nak address p ok short = (relay_ack_lem lib is_packet is_whole api p ok, refl)
  relay-IsForwarded release address p ok short =
      (relay_request_lem lib is_packet is_whole api address p ok short, refl)
  relay-IsForwarded inform address p ok short = (refl, refl)
