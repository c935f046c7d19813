-- ===== src/Relay/Headers.antt =====
-- interface.go, `ServeDHCP`, the block `DHCP Relay`: the fields of a packet, and what the library
-- krolaw/dhcp4 says of them.
use standalone_dhcp.Prelude.{
  ℕ, ◌≡◌, ◌≢◌, ◌<◌, Bool, true, Option, none, some, ◌==◌, nat_eq, if◌then◌else◌, length, All,
}
use standalone_dhcp.Prelude.Map.{lookup, IsDistinct}
use standalone_dhcp.Net.{IpAddr, to4}
use standalone_dhcp.Convert.{Bytes}
use standalone_dhcp.Dhcp.{Dhcp4}

-- The fields of a packet, and the options by their codes. A packet that is written to is whole: it has
-- at least 241 bytes, and the last one is `End`.
pub record Header : Type 0 where
  pub whole : Bool
  pub htype : Bytes
  pub hops : Bytes
  pub chaddr : Bytes
  pub giaddr : IpAddr
  pub ciaddr : IpAddr
  pub yiaddr : IpAddr
  pub siaddr : IpAddr
  pub xid : Bytes
  pub secs : Bytes
  pub flags : Bytes
  pub sname : Bytes
  pub file : Bytes
  pub options : ℕ → Option Bytes

abbrev pub header : (d : Dhcp4) → (d.Packet → Bool) → d.Packet → Header
header d is_whole p = record {
  whole = is_whole p;
  htype = d.htype p;
  hops = d.hops p;
  chaddr = d.chaddr p;
  giaddr = d.giaddr p;
  ciaddr = d.ciaddr p;
  yiaddr = d.yiaddr p;
  siaddr = d.siaddr p;
  xid = d.xid p;
  secs = d.secs p;
  flags = d.flags p;
  sname = d.sname p;
  file = d.file p;
  options = λ j. lookup j (d.parse_options p);
}

-- An option that is neither `Pad` nor `End`, with a length of one byte.
abbrev pub IsOption : ℕ × Bytes → Type 0
IsOption (k, v) = (k ≢ 0) × (k ≢ 255) × (length v < 256)

-- What krolaw/dhcp4 says of the fields. `is_packet` is of a packet that came: it has the 240 bytes of
-- the fields. A new packet is whole and has no options. A field of a packet that came is written to
-- a whole packet as it is, at its own place; an address is written in its short form; the broadcast
-- bit is among the flags. An option that is added to a whole packet is put before its `End`, and is
-- read over an earlier one.
pub record IsPacketApi (d : Dhcp4) (is_packet is_whole : d.Packet → Bool) : Type 0 where
  pub whole_new : (n : ℕ) → is_whole (d.new_packet n) ≡ true
  pub options_new : (n : ℕ) (j : ℕ) → lookup j (d.parse_options (d.new_packet n)) ≡ none
  pub options-IsDistinct : (p : d.Packet) → IsDistinct (d.parse_options p)
  pub options-All : (p : d.Packet) → All IsOption (d.parse_options p)
  pub set_chaddr_lem :
      (p q : d.Packet)
      → is_packet p ≡ true
      → is_whole q ≡ true
      → header d is_whole (d.set_chaddr (d.chaddr p) q)
        ≡ record (header d is_whole q) { chaddr = d.chaddr p }
  pub set_giaddr_lem :
      (p q : d.Packet)
      → is_packet p ≡ true
      → is_whole q ≡ true
      → header d is_whole (d.set_giaddr (d.giaddr p) q)
        ≡ record (header d is_whole q) { giaddr = d.giaddr p }
  pub set_giaddr_short :
      (ip : IpAddr) (q : d.Packet)
      → length (to4 ip) ≡ 4
      → is_whole q ≡ true
      → header d is_whole (d.set_giaddr ip q) ≡ record (header d is_whole q) { giaddr = to4 ip }
  pub set_ciaddr_lem :
      (p q : d.Packet)
      → is_packet p ≡ true
      → is_whole q ≡ true
      → header d is_whole (d.set_ciaddr (d.ciaddr p) q)
        ≡ record (header d is_whole q) { ciaddr = d.ciaddr p }
  pub set_yiaddr_lem :
      (p q : d.Packet)
      → is_packet p ≡ true
      → is_whole q ≡ true
      → header d is_whole (d.set_yiaddr (d.yiaddr p) q)
        ≡ record (header d is_whole q) { yiaddr = d.yiaddr p }
  pub set_siaddr_lem :
      (p q : d.Packet)
      → is_packet p ≡ true
      → is_whole q ≡ true
      → header d is_whole (d.set_siaddr (d.siaddr p) q)
        ≡ record (header d is_whole q) { siaddr = d.siaddr p }
  pub set_xid_lem :
      (p q : d.Packet)
      → is_packet p ≡ true
      → is_whole q ≡ true
      → header d is_whole (d.set_xid (d.xid p) q) ≡ record (header d is_whole q) { xid = d.xid p }
  pub set_secs_lem :
      (p q : d.Packet)
      → is_packet p ≡ true
      → is_whole q ≡ true
      → header d is_whole (d.set_secs (d.secs p) q)
        ≡ record (header d is_whole q) { secs = d.secs p }
  pub set_flags_lem :
      (p q : d.Packet)
      → is_packet p ≡ true
      → is_whole q ≡ true
      → header d is_whole (d.set_flags (d.flags p) q)
        ≡ record (header d is_whole q) { flags = d.flags p }
  pub set_file_lem :
      (p q : d.Packet)
      → is_packet p ≡ true
      → is_whole q ≡ true
      → header d is_whole (d.set_file (d.file p) q)
        ≡ record (header d is_whole q) { file = d.file p }
  pub set_broadcast_lem :
      (b : Bool) (q : d.Packet)
      → is_whole q ≡ true
      → header d is_whole (d.set_broadcast b q)
        ≡ record (header d is_whole q) { flags = d.flags (d.set_broadcast b q) }
  pub add_option_lem :
      (k : ℕ) (v : Bytes) (q : d.Packet)
      → IsOption (k, v)
      → is_whole q ≡ true
      → header d is_whole (d.add_option k v q) ≡ record (header d is_whole q) {
        options = λ j. if k == j then some v else lookup j (d.parse_options q);
      }
