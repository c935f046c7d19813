-- ===== src/Tests/Packets.antt =====
-- The packets on the wire, the shuffles and the converted options at concrete inputs.
use standalone_dhcp.Prelude.{
  ℕ, ◌≡◌, ◌<◌, refl, true, some, List, [], ◌∷◌, nat_eq, string_eq, arith, All,
}
use mathlib.Core.List.{Perm}
use standalone_dhcp.Prelude.Int.{pos}
use standalone_dhcp.Net.{IpAddr, to4, ip_equal, copy_quad, ipv4}
use standalone_dhcp.RawClient.{
  Datagram, checksum, fold_sum, send_unicast_dhcp, sum_pairs, add_last, complement,
}
use standalone_dhcp.RawClient.Fold.{word_sum, IsChecksum, checksum-IsChecksum}
use standalone_dhcp.RawClient.Verify.{IsDatagram}
use standalone_dhcp.RawClient.Target.{receiver, send_unicast_dhcp-IsDatagram}
use standalone_dhcp.Convert.{
  DhcpOption, to_option_code, convert_option_to_dhcp, option_bytes, put_uint32, parse_uint,
  digits_value,
}
use standalone_dhcp.Convert.Bounds.{HasLength, convert_option_to_dhcp-HasLength}
use standalone_dhcp.Shuffle.{
  concat_bytes, shuffle_ip, cut_addresses, shuffle_net_ip, shuffle_from, swap,
}
use standalone_dhcp.Shuffle.Permutes.{addresses, shuffle_ip-perm}

-- 192.0.2.1 and 192.0.2.9.
abbrev server : IpAddr
server = 192 ∷ 0 ∷ 2 ∷ 1 ∷ []

abbrev client : IpAddr
client = 192 ∷ 0 ∷ 2 ∷ 9 ∷ []

abbrev payload : List ℕ
payload = 1 ∷ 6 ∷ 255 ∷ []

checksum_three : checksum payload ≡ some 0xfff8
unfolding checksum sum_pairs add_last fold_sum complement
checksum_three = refl

checksum-IsChecksum_example :
    (c : ℕ) × (checksum payload ≡ some c) × IsChecksum (word_sum payload) c
checksum-IsChecksum_example = checksum-IsChecksum payload (omega arith)

to4-server : to4 server ≡ server
unfolding to4
to4-server = refl

to4-client : to4 client ≡ client
unfolding to4
to4-client = refl

are_bytes : All (λ b. b < 256) payload
are_bytes = omega arith

server_bytes : All (λ b. b < 256) (to4 server)
server_bytes = rw to4-server (omega arith)

client_bytes : All (λ b. b < 256) (to4 client)
client_bytes = rw to4-client (omega arith)

receiver_client : receiver client (0 ∷ 0 ∷ 0 ∷ 0 ∷ []) ≡ client
unfolding ip_equal
receiver_client = refl

send_unicast_dhcp-IsDatagram_example :
    (d : Datagram) × (send_unicast_dhcp true payload client server (0 ∷ 0 ∷ 0 ∷ 0 ∷ []) 67 68
      ≡ some d)
    × (d.addr ≡ copy_quad (to4 (receiver client (0 ∷ 0 ∷ 0 ∷ 0 ∷ []))))
    × (d.port ≡ 68)
    × IsDatagram d.packet (copy_quad (to4 server)) d.addr 67 68 payload
send_unicast_dhcp-IsDatagram_example =
    send_unicast_dhcp-IsDatagram client server (0 ∷ 0 ∷ 0 ∷ 0 ∷ []) 67 68 payload (omega arith)
      (omega arith) server_bytes (rw receiver_client client_bytes) are_bytes (omega arith)

-- A DNS option of two servers.
shuffle_ip-perm_example :
    (order : List IpAddr) × Perm order (addresses (8 ∷ 8 ∷ 8 ∷ 8 ∷ 1 ∷ 1 ∷ 1 ∷ 1 ∷ []))
    × (shuffle_ip (λ i. 0) (8 ∷ 8 ∷ 8 ∷ 8 ∷ 1 ∷ 1 ∷ 1 ∷ 1 ∷ []) ≡ concat_bytes order)
shuffle_ip-perm_example = shuffle_ip-perm (λ i. 0) (8 ∷ 8 ∷ 8 ∷ 8 ∷ 1 ∷ 1 ∷ 1 ∷ 1 ∷ [])

shuffled :
    shuffle_ip (λ i. 0) (8 ∷ 8 ∷ 8 ∷ 8 ∷ 1 ∷ 1 ∷ 1 ∷ 1 ∷ []) ≡ 1 ∷ 1 ∷ 1 ∷ 1 ∷ 8 ∷ 8 ∷ 8 ∷ 8 ∷ []
unfolding shuffle_ip cut_addresses shuffle_net_ip shuffle_from swap concat_bytes to4 ipv4
shuffled = refl

-- An MTU.
abbrev mtu : DhcpOption
mtu = record {
  option_code = pos 26;
  option_value = b'1' ∷ b'5' ∷ b'0' ∷ b'0' ∷ [];
  option_type = "uint16";
}

converted : convert_option_to_dhcp (λ b. []) mtu ≡ some (26, 5 ∷ 220 ∷ [])
unfolding convert_option_to_dhcp option_bytes to_option_code parse_uint digits_value put_uint32
converted = refl

convert_option_to_dhcp-HasLength_example :
    (26 ≡ to_option_code mtu.option_code)
    × (26 < 256)
    × HasLength mtu.option_type mtu.option_value (5 ∷ 220 ∷ [])
convert_option_to_dhcp-HasLength_example =
    convert_option_to_dhcp-HasLength (λ b. []) mtu 26 (5 ∷ 220 ∷ []) converted
