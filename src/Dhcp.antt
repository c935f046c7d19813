-- ===== src/Dhcp.antt =====
-- The libraries that the packet path calls: krolaw/dhcp4, go-cache, the shared helpers of
-- PacketFence, and the run time. None of them is in this repository, so that each is a record of
-- operations, with the documented laws that the code relies on.
use standalone_dhcp.Prelude.{
  ℕ, ◌≡◌, Bool, Option, none, some, String, List, ◌==◌, string_eq, if◌then◌else◌, is_some,
}
use standalone_dhcp.Prelude.Int.{ℤ}
use standalone_dhcp.Prelude.Map.{Map, lookup, IsDistinct}
use standalone_dhcp.Net.{IpAddr}
use standalone_dhcp.Convert.{Bytes}
use standalone_dhcp.Pool.{DhcpPool, Choice}
use standalone_dhcp.Override.{Sql}

-- `dhcp.MessageType`, the values 1 to 8.
pub data MessageType : Type 0 where
  discover offer request decline ack nak release inform : MessageType

-- `dhcp.Packet` with its accessors and setters, and the arithmetic on addresses.
pub record Dhcp4 : Type 1 where
  pub Packet : Type 0
  pub of_bytes : Bytes → Packet
  pub to_bytes : Packet → Bytes
  pub message_text : MessageType → String
  pub htype : Packet → Bytes
  pub hlen : Packet → ℕ
  pub hops : Packet → Bytes
  pub chaddr : Packet → Bytes
  pub giaddr : Packet → IpAddr
  pub ciaddr : Packet → IpAddr
  pub yiaddr : Packet → IpAddr
  pub siaddr : Packet → IpAddr
  pub xid : Packet → Bytes
  pub secs : Packet → Bytes
  pub flags : Packet → Bytes
  pub sname : Packet → Bytes
  pub file : Packet → Bytes
  pub parse_options : Packet → Map ℕ Bytes
  pub new_packet : ℕ → Packet
  pub set_chaddr : Bytes → Packet → Packet
  pub set_giaddr : IpAddr → Packet → Packet
  pub set_ciaddr : IpAddr → Packet → Packet
  pub set_yiaddr : IpAddr → Packet → Packet
  pub set_siaddr : IpAddr → Packet → Packet
  pub set_xid : Bytes → Packet → Packet
  pub set_secs : Bytes → Packet → Packet
  pub set_flags : Bytes → Packet → Packet
  pub set_file : Bytes → Packet → Packet
  pub set_broadcast : Bool → Packet → Packet
  pub add_option : ℕ → Bytes → Packet → Packet
  pub option_name : ℕ → String
  pub reply_packet : Packet → MessageType → IpAddr → IpAddr → ℤ → List (ℕ × Bytes) → Packet
  pub select_order_or_all : Map ℕ Bytes → Option Bytes → List (ℕ × Bytes)
  pub ip_add : IpAddr → ℤ → IpAddr
  pub ip_range : IpAddr → IpAddr → ℤ

-- A value without its time of expiry.
abbrev pub value_of {ℓ} : {V : Type ℓ} → Option (V × ℤ) → Option V
value_of none = none
value_of (some (v, at)) = some v

-- A `cache.Cache` with values of one type. `Cache` is what it holds at one moment: entries that have
-- run out are gone from it. A time to live is a number of seconds, and a time of expiry one of
-- nanoseconds. `evicted` is what `OnEvicted` is called with when a key is deleted.
pub record CacheApi (V : Type 0) : Type 1 where
  pub Cache : Type 0
  pub new : ℤ → ℤ → Cache
  pub get : Cache → String → Option V
  pub get_with_expiration : Cache → String → Option (V × ℤ)
  pub items : Cache → Map String (V × ℤ)
  pub set : Cache → String → V → ℤ → Cache
  pub replace : Cache → String → V → ℤ → Option Cache
  pub delete : Cache → String → Cache
  pub evicted : Cache → String → Option V
  pub get-new : (ttl interval : ℤ) (k : String) → get (new ttl interval) k ≡ none
  pub get_with_expiration_lem :
      (c : Cache) (k : String) → value_of (get_with_expiration c k) ≡ get c k
  pub lookup-items : (c : Cache) (k : String) → value_of (lookup k (items c)) ≡ get c k
  pub items-IsDistinct : (c : Cache) → IsDistinct (items c)
  pub get-set :
      (c : Cache) (k : String) (v : V) (ttl : ℤ) (j : String)
      → get (set c k v ttl) j ≡ (if k == j then some v else get c j)
  pub get-delete :
      (c : Cache) (k j : String) → get (delete c k) j ≡ (if k == j then none else get c j)
  pub replace_lem :
      (c : Cache) (k : String) (v : V) (ttl : ℤ)
      → replace c k v ttl ≡ (if is_some (get c k) then some (set c k v ttl) else none)
  pub evicted-get : (c : Cache) (k : String) (v : V) → get c k ≡ some v → evicted c k ≡ some v

-- The rest: `sharedutils.Ping`, whose answer may differ from one attempt to the next, the texts of
-- values that are only used as keys, and what the run time chooses.
pub record World : Type 0 where
  pub ping : ℕ → IpAddr → IpAddr → String → Bool
  pub byte_to_string : Bytes → String
  -- `IP.String` of an address that has no short form.
  pub long_string : IpAddr → String
  pub parse_ipv6 : Bytes → IpAddr
  pub choice : ℕ → DhcpPool → Choice
  -- `Intn` in round `i` of a shuffle of a list of a length, from a seed.
  pub draw : ℕ → ℕ → ℕ → ℕ

pub record Lib : Type 1 where
  pub dhcp4 : Dhcp4
  pub ints : CacheApi ℤ
  pub texts : CacheApi String
  pub sql : Sql
  pub world : World
