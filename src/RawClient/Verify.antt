-- ===== src/RawClient/Verify.antt =====
-- rawClient.go: what the receiver of a packet finds in it.
use standalone_dhcp.Prelude.{
  ℕ, ◌+◌, ◌*◌, ◌%◌, ◌^◌, ◌≤◌, ◌<◌, ◌≡◌, refl, some, List, [], ◌∷◌, ◌++◌, nat_eq, length, arith, All,
}
use standalone_dhcp.Net.{IpAddr, Quad, copy_quad, to4}
use standalone_dhcp.RawClient.{
  UdpHdr, IpHdr, udp_bytes, pseudo_bytes, ip_bytes, udp_checksum, ip_checksum, fold_sum,
  build_packet, udp_header, ip_header,
}
use standalone_dhcp.RawClient.Fold.{word_sum, checksum-IsChecksum, fold_sum-verifies, word_sum-le}

abbrev pub IsQuad : Quad → Type 0
IsQuad q = (q.b0 < 256) × (q.b1 < 256) × (q.b2 < 256) × (q.b3 < 256)

-- The one-byte fields of the header hold bytes.
pub record IsIpHdr (h : IpHdr) : Type 0 where
  pub vhl : h.vhl < 256
  pub tos : h.tos < 256
  pub ttl : h.ttl < 256
  pub proto : h.proto < 256
  pub src : IsQuad h.src
  pub dst : IsQuad h.dst

-- The sum that the receiver forms adds up to all ones.
abbrev pub Verifies : List ℕ → Type 0
Verifies buf = fold_sum 3 (word_sum buf) ≡ some 0xffff

ip_sum-csum :
    (h : IpHdr) (c : ℕ)
    → c ≤ 0xffff
    → word_sum (ip_bytes (record h { csum = c })) ≡ word_sum (ip_bytes (record h { csum = 0 })) + c
unfolding ip_bytes
ip_sum-csum h c fits = omega arith

ip_sum-lt : (h : IpHdr) → IsIpHdr h → word_sum (ip_bytes (record h { csum = 0 })) < 0x100000
unfolding ip_bytes
ip_sum-lt h v = omega arith

-- `ip_checksum` changes the checksum alone, and the header then verifies.
pub ip_checksum-Verifies :
    (h : IpHdr)
    → IsIpHdr h
    → (c : ℕ) × (ip_checksum h ≡ some (record h { csum = c }))
      × Verifies (ip_bytes (record h { csum = c }))
unfolding ip_checksum
ip_checksum-Verifies h v =
    let small = ip_sum-lt h v in
    let (c, found, k) = checksum-IsChecksum (ip_bytes (record h { csum = 0 })) (omega arith) in
    let sum = ip_sum-csum h c k.fits in
    let fits = k.fits in (c, rw (found, ip_checksum), fold_sum-verifies _ _ c k sum (omega arith))

-- What the checksum of the UDP header is taken of.
abbrev pub udp_buffer : IpHdr → UdpHdr → List ℕ → List ℕ
udp_buffer ip u payload =
    pseudo_bytes
      (record { ipsrc = ip.src; ipdst = ip.dst; zeros = 0; ipproto = ip.proto; plen = u.ulen })
    ++ udp_bytes u
    ++ payload

udp_sum-csum :
    (ip : IpHdr) (u : UdpHdr) (payload : List ℕ) (c : ℕ)
    → c ≤ 0xffff
    → word_sum (udp_buffer ip (record u { csum = c }) payload)
      ≡ word_sum (udp_buffer ip (record u { csum = 0 }) payload) + c
unfolding pseudo_bytes udp_bytes
udp_sum-csum ip u payload c fits = omega arith

udp_sum-lt :
    (ip : IpHdr) (u : UdpHdr) (payload : List ℕ)
    → IsIpHdr ip
    → All (λ b. b < 256) payload
    → word_sum (udp_buffer ip (record u { csum = 0 }) payload) < 0x100000 + 65280 * length payload
unfolding pseudo_bytes udp_bytes
udp_sum-lt ip u payload v bytes = omega (arith, word_sum-le payload bytes)

-- The same for the UDP header, over the pseudo header and the payload. The longest payload of a
-- datagram has 65507 bytes; up to there the sum does not overflow.
pub udp_checksum-Verifies :
    (ip : IpHdr) (u : UdpHdr) (payload : List ℕ)
    → IsIpHdr ip
    → All (λ b. b < 256) payload
    → length payload ≤ 65507
    → (c : ℕ) × (udp_checksum u ip payload ≡ some (record u { csum = c }))
      × Verifies (udp_buffer ip (record u { csum = c }) payload)
unfolding udp_checksum
udp_checksum-Verifies ip u payload v bytes short =
    let small = udp_sum-lt ip u payload v bytes in
    let (c, found, k) =
      checksum-IsChecksum (udp_buffer ip (record u { csum = 0 }) payload) (omega arith) in
    let sum = udp_sum-csum ip u payload c k.fits in
    let fits = k.fits in (c, rw (found, udp_checksum), fold_sum-verifies _ _ c k sum (omega arith))

All-IsQuad : (bytes : List ℕ) → All (λ b. b < 256) bytes → IsQuad (copy_quad bytes)
unfolding copy_quad
All-IsQuad [] h = omega arith
All-IsQuad (a ∷ []) h = omega arith
All-IsQuad (a ∷ b ∷ []) h = omega arith
All-IsQuad (a ∷ b ∷ c ∷ []) h = omega arith
All-IsQuad (a ∷ b ∷ c ∷ d ∷ _) h = omega arith

ip_header-IsIpHdr :
    (src dst : IpAddr)
    → All (λ b. b < 256) (to4 src)
    → All (λ b. b < 256) (to4 dst)
    → IsIpHdr (ip_header src dst)
ip_header-IsIpHdr src dst bs bd = record {
  vhl = omega arith;
  tos = omega arith;
  ttl = omega arith;
  proto = omega arith;
  src = All-IsQuad (to4 src) bs;
  dst = All-IsQuad (to4 dst) bd;
}

-- A packet of two headers and a payload that a receiver accepts: the lengths are those of the
-- datagram, and both checksums verify.
pub record IsDatagram (packet : List ℕ) (src dst : Quad) (sport dport : ℕ) (payload : List ℕ)
    : Type 0 where
  pub ip : IpHdr
  pub udp : UdpHdr
  pub parts : packet ≡ ip_bytes ip ++ udp_bytes udp ++ payload
  pub version : (ip.vhl ≡ 0x45) × (ip.proto ≡ 17)
  pub from : ip.src ≡ src
  pub to : ip.dst ≡ dst
  pub ports : (udp.src ≡ sport) × (udp.dst ≡ dport)
  pub iplen : ip.iplen ≡ length packet
  pub ulen : udp.ulen ≡ 8 + length payload
  pub ip_verifies : Verifies (ip_bytes ip)
  pub udp_verifies : Verifies (udp_buffer ip udp payload)

length-headers :
    (ip : IpHdr) (u : UdpHdr) (payload : List ℕ)
    → length (ip_bytes ip ++ udp_bytes u ++ payload) ≡ 28 + length payload
unfolding ip_bytes udp_bytes
length-headers ip u payload = omega arith

-- For ports of 16 bits, addresses and a payload of bytes, and a payload that fits a datagram,
-- `build_packet` answers two headers and the payload: the addresses, ports and lengths are those of
-- the datagram, and both checksums verify.
pub build_packet-IsDatagram :
    (sport dport : ℕ) (src dst : IpAddr) (payload : List ℕ)
    → sport < 0x10000
    → dport < 0x10000
    → All (λ b. b < 256) (to4 src)
    → All (λ b. b < 256) (to4 dst)
    → All (λ b. b < 256) payload
    → length payload ≤ 65507
    → (packet : List ℕ) × (build_packet sport dport src dst payload ≡ some packet)
      × IsDatagram packet (copy_quad (to4 src)) (copy_quad (to4 dst)) sport dport payload
unfolding build_packet
build_packet-IsDatagram sport dport src dst payload hs hd bs bd bytes short =
    let ip = ip_header src dst in
    let udp = udp_header sport dport (8 + length payload) in
    let ip' : IpHdr = record ip { iplen = (20 + (8 + length payload)) % 2 ^ 16 } in
    let v = ip_header-IsIpHdr src dst bs bd in
    let v' : IsIpHdr ip' = record {
      vhl = v.vhl;
      tos = v.tos;
      ttl = v.ttl;
      proto = v.proto;
      src = v.src;
      dst = v.dst;
    } in
    let (c, found, verified) = udp_checksum-Verifies ip udp payload v bytes short in
    let (d, found', verified') = ip_checksum-Verifies ip' v' in
    (
      ip_bytes (record ip' { csum = d }) ++ udp_bytes (record udp { csum = c }) ++ payload,
      rw (found, found', build_packet),
      record {
        ip = record ip' { csum = d };
        udp = record udp { csum = c };
        parts = refl;
        version = (refl, refl);
        from = refl;
        to = refl;
        ports = (omega arith, omega arith);
        iplen =
            omega
              (arith, length-headers (record ip' { csum = d }) (record udp { csum = c }) payload);
        ulen = omega arith;
        ip_verifies = verified';
        udp_verifies = verified;
      },
    )
