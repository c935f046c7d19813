-- ===== src/Server.antt =====
-- server.go and workers_pool.go: which packets are queued, the bounded queue, and the packet that a
-- worker sends for an answer.
use standalone_dhcp.Prelude.{
  ℕ, Bool, not, ◌&&◌, Option, none, some, List, [], ◌∷◌, ◌++◌, ◌==◌, nat_eq, string_eq,
  if◌then◌else◌, length, ltb,
}
use standalone_dhcp.Prelude.Map.{lookup}
use standalone_dhcp.Net.{IpAddr, ip_equal, ipv4_zero}
use standalone_dhcp.Convert.{Bytes}
use standalone_dhcp.RawClient.{Datagram, Frame, send_unicast_dhcp, send_dhcp}
use standalone_dhcp.Dhcp.{
  Lib, MessageType, discover, offer, request, decline, ack, nak, release, inform,
}
use standalone_dhcp.Handler.{Answer}
use standalone_dhcp.Serve.{Interface, is_relay}

-- `dhcp.MessageType(t[0])`, between `Discover` and `Inform`.
unfoldable pub message_type : ℕ → Option MessageType
message_type n =
    if n == 1
    then some discover
    else if n == 2
    then some offer
    else if n == 3
    then some request
    else if n == 4
    then some decline
    else if n == 5
    then some ack
    else if n == 6
    then some nak
    else if n == 7
    then some release
    else if n == 8
    then some inform
    else none

-- The type that the option of the message type has, if it has one byte.
unfoldable pub type_option : Option Bytes → Option MessageType
type_option (some (b ∷ [])) = message_type b
type_option _ = none

-- The queue is a channel with a capacity: what finds it full is dropped.
unfoldable pub enqueue : {J : Type 0} → ℕ → J → List J → List J
enqueue capacity j queue = if ltb (length queue) capacity then queue ++ (j ∷ []) else queue

module _ (lib : Lib) where
  open lib use {dhcp4}

  -- `job`; the address of the client is split in host and port.
  pub record Job : Type 0 where
    pub packet : dhcp4.Packet
    pub msg_type : MessageType
    pub client_host : IpAddr
    pub client_port : ℕ

  -- The tests on what was read; `none` is a `continue`.
  unfoldable pub accept : IpAddr → ℕ → Bytes → Option Job
  accept host port bytes =
      let p = dhcp4.of_bytes bytes in
      if ltb (length bytes) 240
      then none
      else if ltb 16 (dhcp4.hlen p)
      then none
      else elim (type_option (lookup 53 (dhcp4.parse_options p))) [
        | none ↦ none
        | some t ↦
            some (record { packet = p; msg_type = t; client_host = host; client_port = port })
      ]

  -- One turn of the loop of `Serve` after a read that succeeds.
  unfoldable pub receive : ℕ → IpAddr → ℕ → Bytes → List Job → List Job
  receive capacity host port bytes queue = elim (accept host port bytes) [
    | none ↦ queue
    | some j ↦ enqueue capacity j queue
  ]

  -- What a worker hands to the kernel.
  pub data Sent : Type 0 where
    nothing : Sent
    unicast : Option Datagram → Sent
    broadcast : Option Frame → Sent

  -- The link below an interface: its hardware address, and whether the sockets open.
  pub record Link : Type 0 where
    pub hardware : Bytes
    pub raw_opens : Bool
    pub socket_opens : Bool

  unfoldable pub to_server : Link → Interface lib → Job → dhcp4.Packet → Sent
  to_server link i j d = unicast (
      send_unicast_dhcp link.socket_opens (dhcp4.to_bytes d) i.relay_ip i.ipv4
        (dhcp4.giaddr j.packet) 68 67)

  unfoldable pub to_link : Link → Interface lib → Answer lib → dhcp4.Packet → Sent
  to_link link i answer d =
      if link.raw_opens
      then broadcast (send_dhcp link.hardware answer.mac (dhcp4.to_bytes d) answer.ip i.ipv4)
      else nothing

  unfoldable pub send_relayed :
      Link → Interface lib → Job → Answer lib → dhcp4.Packet → MessageType → Sent
  send_relayed link i j answer d discover = to_server link i j d
  send_relayed link i j answer d offer = to_link link i answer d
  send_relayed link i j answer d request = to_server link i j d
  send_relayed link i j answer d ack = to_link link i answer d
  send_relayed link i j answer d _ = nothing

  unfoldable pub send_served : Link → Interface lib → Job → Answer lib → dhcp4.Packet → Sent
  send_served link i j answer d =
      if not (ip_equal (dhcp4.giaddr j.packet) ipv4_zero && ip_equal j.client_host ipv4_zero)
      then unicast (
          send_unicast_dhcp link.socket_opens (dhcp4.to_bytes d) j.client_host i.ipv4
            (dhcp4.giaddr j.packet) 67 j.client_port)
      else to_link link i answer d

  -- `doWork`, after `ServeDHCP` has answered.
  unfoldable pub do_work : Link → Interface lib → Job → Answer lib → Sent
  do_work link i j answer = elim (answer.d) [
    | none ↦ nothing
    | some d ↦
        if is_relay lib i
        then send_relayed link i j answer d j.msg_type
        else send_served link i j answer d
  ]
