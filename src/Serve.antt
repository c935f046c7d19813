-- ===== src/Serve.antt =====
-- interface.go, `ServeDHCP`: the relay, the choice of the network, the lock on a transaction, the
-- dispatch on the type of the message, and the reply to a DISCOVER.
pub mod Quarantine
pub mod Settings
pub mod Invariant
pub mod Dispatch
pub mod Once
pub mod Transactions
pub mod Twice
use standalone_dhcp.Prelude.{
  ℕ, zero, suc, ◌+◌, Bool, true, false, not, ◌&&◌, ◌||◌, Option, none, some, String, List, [], ◌∷◌,
  ◌==◌, nat_eq, string_eq, if◌then◌else◌, length, is_some,
}
use standalone_dhcp.Prelude.Int.{ℤ, pos}
use standalone_dhcp.Prelude.Map.{Map, lookup}
use standalone_dhcp.Net.{IpAddr, IpNet, contains, to4, ip_equal, ipv4_zero}
use standalone_dhcp.Convert.{Bytes}
use standalone_dhcp.Override.{Store}
use standalone_dhcp.Dhcp.{
  Lib, MessageType, discover, offer, request, decline, ack, nak, release, inform,
}
use standalone_dhcp.Handler.{
  State, Handler, Answer, Timer, be_uint32, mac_string, ip_string, decimal_text,
  build_reply_options,
}
use standalone_dhcp.Discover.{Request, Outcome, offers, silent, panics, choose_index}
use standalone_dhcp.Request.{Message, no_answer, to_client, nak_packet, serve_request}
use standalone_dhcp.Release.{serve_release}
use standalone_dhcp.Relay.{relay}
use Prim.Native.String.{◌++◌}

module _ (lib : Lib) where
  open lib use {dhcp4, ints, texts, sql, world}

  -- `Network`, with the goroutines that sleep on its handler.
  pub record Network : Type 0 where
    pub network : IpNet
    pub dhcp_handler : Handler lib
    pub timers : List Timer

  -- `Interface`, as far as the packet path reads it.
  pub record Interface : Type 0 where
    pub name : String
    pub ipv4 : IpAddr
    pub interface_type : String
    pub relay_ip : IpAddr

  -- The networks of an interface and what the process shares. `networks` is in the order of the
  -- iteration.
  pub record Process : Type 0 where
    pub networks : List Network
    pub transactions : ints.Cache
    pub requests : ints.Cache
    pub ips : texts.Cache
    pub macs : texts.Cache
    pub store : Store sql

  unfoldable pub is_relay : Interface → Bool
  is_relay i = i.interface_type == "relay"

  abbrev pub state_of : Network → Process → State lib
  state_of v w = record {
    handler = v.dhcp_handler;
    transactions = w.transactions;
    requests = w.requests;
    ips = w.ips;
    macs = w.macs;
    store = w.store;
    timers = v.timers;
  }

  abbrev put_network : ℕ → State lib → List Network → List Network
  put_network n s [] = []
  put_network zero s (v ∷ rest) = record v { dhcp_handler = s.handler; timers = s.timers } ∷ rest
  put_network (suc n) s (v ∷ rest) = v ∷ put_network n s rest

  abbrev pub with_state : ℕ → State lib → Process → Process
  with_state n s w = record {
    networks = put_network n s w.networks;
    transactions = s.transactions;
    requests = s.requests;
    ips = s.ips;
    macs = s.macs;
    store = s.store;
  }

  -- One turn of the loop that looks for the handler.
  unfoldable pub serves : dhcp4.Packet → Network → Bool
  serves p v =
      let local = contains v.network (dhcp4.ciaddr p) in
      let direct = ip_equal (dhcp4.giaddr p) ipv4_zero in
      if v.dhcp_handler.layer2 && (direct || local)
      then not (not (ip_equal (dhcp4.ciaddr p) ipv4_zero) && not local)
      else (direct && local) || ((not direct && contains v.network (dhcp4.giaddr p)) || local)

  -- The first network that serves the packet, with its place.
  unfoldable pub detect : dhcp4.Packet → ℕ → List Network → Option (ℕ × Network)
  detect p n [] = none
  detect p n (v ∷ rest) = if serves p v then some (n, v) else detect p (suc n) rest

  -- `p.CHAddr().String() + " " + msgType.String() + " xID " + ByteToString(p.XId())`.
  unfoldable pub transaction_key : MessageType → dhcp4.Packet → String
  transaction_key t p =
      mac_string (dhcp4.chaddr p)
      ++ (" " ++ (dhcp4.message_text t ++ (" xID " ++ world.byte_to_string (dhcp4.xid p))))

  abbrev number_text : Option ℕ → String
  number_text none = ""
  number_text (some n) = decimal_text 10 n

  unfoldable pub message_of : Interface → MessageType → dhcp4.Packet → Message lib
  message_of i t p = record {
    packet = p;
    client = mac_string (dhcp4.chaddr p);
    chaddr = dhcp4.chaddr p;
    options = dhcp4.parse_options p;
    cache_key = transaction_key t p;
    xid_key = number_text (be_uint32 (dhcp4.xid p));
    if_address = i.ipv4;
  }

  unfoldable pub discover_of : Interface → IpAddr → Message lib → Request lib
  discover_of i server m = record {
    client = m.client;
    xid_text = world.byte_to_string (dhcp4.xid m.packet);
    requested = lookup 50 m.options;
    server = server;
    if_name = i.name;
  }

  -- From the label `reply`; a panic on the way is recovered, and nothing is sent.
  unfoldable pub make_offer : Message lib → String → ℤ → State lib → Answer lib × State lib
  make_offer m network_ip free s =
      let address = dhcp4.ip_add s.handler.start free in
      elim (build_reply_options lib s.handler.options m.chaddr network_ip m.client s.store) [
        | none ↦ (to_client lib m address none, s)
        | some (store', options) ↦ (
          to_client lib m address (
              some (
                dhcp4.reply_packet m.packet offer (to4 s.handler.ip) address
                  s.handler.lease_duration
                  (dhcp4.select_order_or_all options (lookup 55 options)))),
          record s { store = store' },
        )
      ]

  abbrev answer_discover :
      Message lib → String → Option (Outcome (State lib)) → Option (Answer lib × State lib)
  answer_discover m network_ip none = none
  answer_discover m network_ip (some (offers free s)) = some (make_offer m network_ip free s)
  answer_discover m network_ip (some (silent s)) = some (to_client lib m [] none, s)
  answer_discover m network_ip (some (panics s)) = some (to_client lib m [] none, s)

  -- The switch on the type of the message. What it does not name is refused. `none` is a DISCOVER
  -- that runs out of fuel.
  unfoldable pub dispatch :
      ℕ
      → Interface
      → IpAddr
      → String
      → MessageType
      → Message lib
      → State lib
      → Option (Answer lib × State lib)
  dispatch fuel i server network_ip discover m s =
      answer_discover m network_ip (choose_index lib fuel (discover_of i server m) s)
  dispatch fuel i server network_ip request m s = some (serve_request lib m network_ip s)
  dispatch fuel i server network_ip inform m s = some (serve_request lib m network_ip s)
  dispatch fuel i server network_ip release m s = some (serve_release lib m s)
  dispatch fuel i server network_ip decline m s = some (serve_release lib m s)
  dispatch fuel i server network_ip offer m s =
      some (to_client lib m [] (some (nak_packet lib m s)), s)
  dispatch fuel i server network_ip ack m s =
      some (to_client lib m [] (some (nak_packet lib m s)), s)
  dispatch fuel i server network_ip nak m s =
      some (to_client lib m [] (some (nak_packet lib m s)), s)

  -- One packet of a transaction a second.
  unfoldable pub serve_once :
      ℕ
      → Interface
      → IpAddr
      → String
      → MessageType
      → Message lib
      → State lib
      → Option (Answer lib × State lib)
  serve_once fuel i server network_ip t m s =
      if is_some (ints.get s.transactions m.cache_key)
      then some (to_client lib m [] none, s)
      else dispatch fuel i server network_ip t m
          (record s { transactions = ints.set s.transactions m.cache_key (pos 1) (pos 1) })

  abbrev store_result :
      ℕ → Process → Option (Answer lib × State lib) → Option (Answer lib × Process)
  store_result n w none = none
  store_result n w (some (a, s)) = some (a, with_state n s w)

  unfoldable pub serve_dhcp :
      ℕ → Interface → MessageType → IpAddr → dhcp4.Packet → Process → Option (Answer lib × Process)
  serve_dhcp fuel i t server p w =
      let m = message_of i t p in
      if is_relay i then some (relay lib t i.ipv4 p, w) else elim (detect p 0 w.networks) [
        | none ↦ some (to_client lib m [] none, w)
        | some (n, v) ↦
            if length v.dhcp_handler.ip == 0
            then some (to_client lib m [] none, w)
            else store_result n w (
                serve_once fuel i server (ip_string world.long_string v.network.ip) t m
                  (state_of v w))
      ]
