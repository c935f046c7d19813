-- ===== src/Handler.antt =====
-- config.go and server.go: the state that the packet path reads and writes, and interface.go,
-- `buildReplyOptions`.
use standalone_dhcp.Prelude.{
  ℕ, zero, suc, ◌+◌, ◌*◌, ◌/◌, ◌%◌, ◌^◌, Bool, ◌||◌, Option, none, some, String, List, [], ◌∷◌,
  ◌==◌, nat_eq, string_eq, if◌then◌else◌, length, get_elem?,
}
use standalone_dhcp.Prelude.Int.{ℤ}
use standalone_dhcp.Prelude.Map.{Map, insert}
use standalone_dhcp.Net.{IpAddr, to4}
use standalone_dhcp.Convert.{Bytes}
use standalone_dhcp.Pool.{DhcpPool}
use standalone_dhcp.Utils.{safe_int_to_uint64}
use standalone_dhcp.Shuffle.{shuffle_ip}
use standalone_dhcp.Override.{Store, apply_option_overrides}
use standalone_dhcp.Dhcp.{Lib}
use Prim.Native.String.{◌++◌}

-- `binary.BigEndian.Uint32`: it panics on less than four bytes.
unfoldable pub be_uint32 : Bytes → Option ℕ
be_uint32 (a ∷ b ∷ c ∷ d ∷ _) = some (a * 2 ^ 24 + b * 2 ^ 16 + c * 2 ^ 8 + d)
be_uint32 _ = none

hex_digits : ℕ → String
hex_digits d =
    if d == 0
    then "0"
    else if d == 1
    then "1"
    else if d == 2
    then "2"
    else if d == 3
    then "3"
    else if d == 4
    then "4"
    else if d == 5
    then "5"
    else if d == 6
    then "6"
    else if d == 7
    then "7"
    else if d == 8
    then "8"
    else if d == 9
    then "9"
    else if d == 10
    then "a"
    else if d == 11
    then "b"
    else if d == 12
    then "c"
    else if d == 13
    then "d"
    else if d == 14
    then "e"
    else "f"

unfoldable pub hex_byte : ℕ → String
unfolding hex_digits
hex_byte b = hex_digits (b / 16) ++ hex_digits (b % 16)

-- `HardwareAddr.String`.
unfoldable pub mac_string : Bytes → String
unfolding hex_byte
mac_string [] = ""
mac_string (b ∷ []) = hex_byte b
mac_string (b ∷ c ∷ rest) = hex_byte b ++ (":" ++ mac_string (c ∷ rest))

-- A byte in decimal.
decimal : ℕ → String
unfolding hex_digits
decimal b =
    if b / 100 == 0
    then (if b / 10 == 0 then hex_digits b else hex_digits (b / 10) ++ hex_digits (b % 10))
    else hex_digits (b / 100) ++ (hex_digits (b / 10 % 10) ++ hex_digits (b % 10))

-- `Sprintf("%d")` of a `uint32`, which has ten digits at most.
unfoldable pub decimal_text : ℕ → ℕ → String
unfolding hex_digits
decimal_text zero n = ""
decimal_text (suc digits) n =
    let front = decimal_text digits (n / 10) in
    if n / 10 == 0 then hex_digits n else front ++ hex_digits (n % 10)

-- `IP.String`: four numbers for an IPv4 address, `<nil>` for nil.
unfoldable pub ip_string : (IpAddr → String) → IpAddr → String
unfolding decimal
ip_string long ip = short (to4 ip)
  where
    short : IpAddr → String
    short (a ∷ b ∷ c ∷ d ∷ []) =
        decimal a ++ ("." ++ (decimal b ++ ("." ++ (decimal c ++ ("." ++ decimal d)))))
    short _ = if length ip == 0 then "<nil>" else long ip

-- A goroutine that sleeps: `FreeIPIndex(index)` after some seconds, or a `Delete` in the cache.
pub data Timer : Type 0 where
  free_index : ℕ → ℕ → Timer
  forget : String → Timer

module _ (lib : Lib) where
  open lib use {dhcp4, ints, texts, sql, world}

  -- `DHCPHandler`. The pool and the caches are shared by pointer: a copy of the handler writes to them.
  pub record Handler : Type 0 where
    pub ip : IpAddr
    pub options : Map ℕ Bytes
    pub start : IpAddr
    pub lease_range : ℤ
    pub lease_duration : ℤ
    pub hwcache : ints.Cache
    pub xid : ints.Cache
    pub available : DhcpPool
    pub layer2 : Bool
    pub role : String
    pub ip_reserved : Bytes
    pub ip_assigned : Map String ℕ

  -- The handler of one network with the caches of the process.
  pub record State : Type 0 where
    pub handler : Handler
    pub transactions : ints.Cache
    pub requests : ints.Cache
    pub ips : texts.Cache
    pub macs : texts.Cache
    pub store : Store sql
    pub timers : List Timer

  -- `Answer`; `d` is nil where nothing is sent.
  pub record Answer : Type 0 where
    pub d : Option dhcp4.Packet
    pub ip : IpAddr
    pub mac : Bytes
    pub src_ip : IpAddr

  abbrev pub pool_of : State → DhcpPool
  pool_of s = s.handler.available

  abbrev pub with_pool : DhcpPool → State → State
  with_pool p s = record s { handler = record s.handler { available = p } }

  abbrev pub with_hwcache : ints.Cache → State → State
  with_hwcache c s = record s { handler = record s.handler { hwcache = c } }

  abbrev pub with_xid : ints.Cache → State → State
  with_xid c s = record s { handler = record s.handler { xid = c } }

  abbrev pub start_timer : Timer → State → State
  start_timer t s = record s { timers = t ∷ s.timers }

  -- The callback of `hwcache`: the index of an entry that is gone is freed after 30 seconds.
  abbrev pub on_evicted : Option ℤ → State → State
  on_evicted none s = s
  on_evicted (some index) s = start_timer (free_index 30 (safe_int_to_uint64 index)) s

  unfoldable pub hwcache_delete : String → State → State
  hwcache_delete mac s =
      on_evicted (ints.evicted s.handler.hwcache mac)
        (with_hwcache (ints.delete s.handler.hwcache mac) s)

  -- The options of a reply: name servers (6) and routers (3) are shuffled by the last byte of the
  -- hardware address. `none` is a panic, on a hardware address of less than six bytes.
  unfoldable pub shuffle_options : Bytes → Map ℕ Bytes → Map ℕ Bytes → Option (Map ℕ Bytes)
  shuffle_options chaddr [] options = some options
  shuffle_options chaddr ((key, value) ∷ rest) options =
      if key == 6 || key == 3
      then elim (get_elem? chaddr 5) [
        | none ↦ none
        | some seed ↦
            shuffle_options chaddr rest
              (insert key (shuffle_ip (world.draw seed (length value)) value) options)
      ]
      else shuffle_options chaddr rest (insert key value options)

  unfoldable pub build_reply_options :
      Map ℕ Bytes → Bytes → String → String → Store sql → Option (Store sql × Map ℕ Bytes)
  build_reply_options base chaddr network_ip client_mac store =
      elim (shuffle_options chaddr base []) [
        | none ↦ none
        | some options ↦
            some (apply_option_overrides sql world.parse_ipv6 options network_ip client_mac store)
      ]
