-- ===== src/RawClient/Target.antt =====
-- rawClient.go: to whom `sendUnicastDHCP` sends, and what.
use standalone_dhcp.Prelude.{
  ℕ, ◌≤◌, ◌<◌, ◌≡◌, refl, ap, true, some, List, if◌then◌else◌, length, arith, All,
}
use standalone_dhcp.Net.{IpAddr, to4, ip_equal, ipv4_zero, copy_quad}
use standalone_dhcp.Net.Laws.{to4-ip_equal}
use standalone_dhcp.RawClient.{Datagram, unicast_target, send_unicast_dhcp}
use standalone_dhcp.RawClient.Verify.{IsDatagram, build_packet-IsDatagram}

-- The relay if the packet came through one, and the client's address otherwise.
abbrev pub receiver : IpAddr → IpAddr → IpAddr
receiver dst gi = if ip_equal gi ipv4_zero then dst else gi

unicast_target-receiver : (dst gi : IpAddr) → to4 (unicast_target dst gi) ≡ to4 (receiver dst gi)
unfolding unicast_target
unicast_target-receiver dst gi = ground (arith, to4-ip_equal dst gi)

-- If the socket opens, for ports of 16 bits, addresses and a payload of bytes, and a payload that
-- fits a datagram: the datagram goes to the relay, or to the client if the relay's address is zero,
-- at the port given; its headers say the same, and both checksums verify.
pub send_unicast_dhcp-IsDatagram :
    (dst src gi : IpAddr) (sport dport : ℕ) (payload : List ℕ)
    → sport < 0x10000
    → dport < 0x10000
    → All (λ b. b < 256) (to4 src)
    → All (λ b. b < 256) (to4 (receiver dst gi))
    → All (λ b. b < 256) payload
    → length payload ≤ 65507
    → (d : Datagram) × (send_unicast_dhcp true payload dst src gi sport dport ≡ some d)
      × (d.addr ≡ copy_quad (to4 (receiver dst gi)))
      × (d.port ≡ dport)
      × IsDatagram d.packet (copy_quad (to4 src)) d.addr sport dport payload
unfolding send_unicast_dhcp
send_unicast_dhcp-IsDatagram dst src gi sport dport payload hs hd bs bd bytes short =
    let e = unicast_target-receiver dst gi in
    let (packet, built, good) =
      build_packet-IsDatagram sport dport src (unicast_target dst gi) payload hs hd bs (rw e bd)
        bytes short in
    (
      record { packet = packet; addr = copy_quad (to4 (unicast_target dst gi)); port = dport },
      rw (built, send_unicast_dhcp),
      ap copy_quad e,
      refl,
      good,
    )
