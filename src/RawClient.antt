-- ===== src/RawClient.antt =====
-- rawClient.go: the UDP and IP headers, their checksums, and the packets that are sent.
pub mod Fold
pub mod Verify
pub mod Target
use standalone_dhcp.Prelude.{
  ℕ, zero, suc, ◌+◌, ◌-◌, ◌*◌, ◌/◌, ◌%◌, ◌^◌, Bool, true, false, not, Option, none, some, List, [],
  ◌∷◌, ◌++◌, ◌==◌, nat_eq, ltb, if◌then◌else◌, length,
}
use standalone_dhcp.Net.{IpAddr, Quad, quad_bytes, to4, ip_equal, ipv4_zero, copy_quad, put_uint16}

pub record UdpHdr : Type 0 where
  pub src : ℕ
  pub dst : ℕ
  pub ulen : ℕ
  pub csum : ℕ

pub record PseudoHdr : Type 0 where
  pub ipsrc : Quad
  pub ipdst : Quad
  pub zeros : ℕ
  pub ipproto : ℕ
  pub plen : ℕ

pub record IpHdr : Type 0 where
  pub vhl : ℕ
  pub tos : ℕ
  pub iplen : ℕ
  pub id : ℕ
  pub off : ℕ
  pub ttl : ℕ
  pub proto : ℕ
  pub csum : ℕ
  pub src : Quad
  pub dst : Quad

-- `binary.Write` of each header, field by field.
unfoldable pub udp_bytes : UdpHdr → List ℕ
udp_bytes u = put_uint16 u.src ++ put_uint16 u.dst ++ put_uint16 u.ulen ++ put_uint16 u.csum

unfoldable pub pseudo_bytes : PseudoHdr → List ℕ
pseudo_bytes h = quad_bytes h.ipsrc ++ quad_bytes h.ipdst ++ h.zeros ∷ h.ipproto ∷ put_uint16 h.plen

unfoldable pub ip_bytes : IpHdr → List ℕ
ip_bytes h =
    (h.vhl ∷ h.tos ∷ put_uint16 h.iplen)
    ++ put_uint16 h.id
    ++ put_uint16 h.off
    ++ (h.ttl ∷ h.proto ∷ put_uint16 h.csum)
    ++ quad_bytes h.src
    ++ quad_bytes h.dst

-- The first loop of `checksum`, on a `uint32`: `b0 << 8 | b1` has no common bits. The sum and
-- the bytes that are left over, one at most.
unfoldable pub sum_pairs : ℕ → List ℕ → ℕ × List ℕ
sum_pairs sum [] = (sum, [])
sum_pairs sum (b ∷ []) = (sum, b ∷ [])
sum_pairs sum (b ∷ c ∷ buf) = sum_pairs ((sum + (b * 2 ^ 8 + c)) % 2 ^ 32) buf

unfoldable pub add_last : ℕ × List ℕ → ℕ
add_last (sum, []) = sum
add_last (sum, b ∷ buf) = (sum + b * 2 ^ 8) % 2 ^ 32

-- The second loop, with fuel; `none` means that the fuel ran out.
unfoldable pub fold_sum : ℕ → ℕ → Option ℕ
fold_sum zero sum = none
fold_sum (suc fuel) sum =
    let rest = fold_sum fuel ((sum / 2 ^ 16 + sum % 2 ^ 16) % 2 ^ 32) in
    if ltb 0xffff sum then rest else some sum

-- `^uint16(sum)`, where an all zero result becomes all ones.
unfoldable pub complement : ℕ → ℕ
complement sum = let csum = 0xffff - sum % 2 ^ 16 in if csum == 0 then 0xffff else csum

-- Three rounds are enough for every 32-bit sum.
unfoldable pub checksum : List ℕ → Option ℕ
checksum buf = elim (fold_sum 3 (add_last (sum_pairs 0 buf))) [
  | none ↦ none
  | some sum ↦ some (complement sum)
]

unfoldable pub udp_checksum : UdpHdr → IpHdr → List ℕ → Option UdpHdr
udp_checksum u ip payload =
    let zeroed : UdpHdr = record u { csum = 0 } in
    let phdr : PseudoHdr = record {
      ipsrc = ip.src;
      ipdst = ip.dst;
      zeros = 0;
      ipproto = ip.proto;
      plen = zeroed.ulen;
    } in
    elim (checksum (pseudo_bytes phdr ++ udp_bytes zeroed ++ payload)) [
      | none ↦ none
      | some c ↦ some (record u { csum = c })
    ]

unfoldable pub ip_checksum : IpHdr → Option IpHdr
ip_checksum h = elim (checksum (ip_bytes (record h { csum = 0 }))) [
  | none ↦ none
  | some c ↦ some (record h { csum = c })
]

-- The header literals, `udphdr{…}` with its length and `iphdr{…}` with its addresses.
abbrev pub udp_header : ℕ → ℕ → ℕ → UdpHdr
udp_header udpsrc udpdst udplen = record {
  src = udpsrc % 2 ^ 16;
  dst = udpdst % 2 ^ 16;
  ulen = udplen % 2 ^ 16;
  csum = 0;
}

abbrev pub ip_header : IpAddr → IpAddr → IpHdr
ip_header srcIP dstIP = record {
  vhl = 0x45;
  tos = 0;
  iplen = 0;
  id = 0;
  off = 0;
  ttl = 128;
  proto = 17;
  csum = 0;
  src = copy_quad (to4 srcIP);
  dst = copy_quad (to4 dstIP);
}

-- The common part of `sendDHCP` and `sendUnicastDHCP`: the two headers before the payload.
unfoldable pub build_packet : ℕ → ℕ → IpAddr → IpAddr → List ℕ → Option (List ℕ)
build_packet udpsrc udpdst srcIP dstIP dhcp =
    let udplen = 8 + length dhcp in
    let ip = ip_header srcIP dstIP in
    elim (udp_checksum (udp_header udpsrc udpdst udplen) ip dhcp) [
      | none ↦ none
      | some udp ↦ elim (ip_checksum (record ip { iplen = (20 + udplen) % 2 ^ 16 })) [
        | none ↦ none
        | some ip' ↦ some (ip_bytes ip' ++ udp_bytes udp ++ dhcp)
      ]
    ]

-- An answer to a relay goes to the relay, and not to the address of the client.
unfoldable pub unicast_target : IpAddr → IpAddr → IpAddr
unicast_target dstIP giAddr =
    if not (ip_equal dstIP giAddr)
    then (if not (ip_equal giAddr ipv4_zero) then giAddr else dstIP)
    else dstIP

-- The datagram that is handed to `Sendto`: packet, address and port.
pub record Datagram : Type 0 where
  pub packet : List ℕ
  pub addr : Quad
  pub port : ℕ

-- `sendUnicastDHCP`; `opened` tells whether the raw socket could be opened.
unfoldable pub send_unicast_dhcp :
    Bool → List ℕ → IpAddr → IpAddr → IpAddr → ℕ → ℕ → Option Datagram
send_unicast_dhcp opened dhcp dstIP srcIP giAddr udpsrc udpdst =
    let target = unicast_target dstIP giAddr in
    if opened
    then elim (build_packet udpsrc udpdst srcIP target dhcp) [
      | none ↦ none
      | some packet ↦
          some (record { packet = packet; addr = copy_quad (to4 target); port = udpdst })
    ]
    else none

-- The frame that `sendDHCP` writes to the raw socket.
pub record Frame : Type 0 where
  pub destination : List ℕ
  pub source : List ℕ
  pub ether_type : ℕ
  pub payload : List ℕ

-- `sendDHCP`; `hardware` is the address of the interface. The frame's marshalling is a library's.
unfoldable pub send_dhcp : List ℕ → List ℕ → List ℕ → IpAddr → IpAddr → Option Frame
send_dhcp hardware target dhcp dstIP srcIP = elim (build_packet 67 68 srcIP dstIP dhcp) [
  | none ↦ none
  | some packet ↦
      some
        (record { destination = target; source = hardware; ether_type = 0x0800; payload = packet })
]
