-- ===== src/Tests/Libraries.antt =====
-- Simple libraries for the tests: a cache as a map, a table as a list, packets as records.
use standalone_dhcp.Prelude.{
  ℕ, suc, ◌+◌, ◌≡◌, refl, ap, Bool, Option, none, some, String, List, [], ◌∷◌, nat_eq, string_eq,
  if◌then◌else◌, is_some, length, arith,
}
use standalone_dhcp.Prelude.Int.{int_eq, ℤ, pos, sub_ℕ}
use standalone_dhcp.Prelude.Map.{
  Map, lookup, insert, delete, has, lookup-insert, lookup-delete, IsDistinct, insert-IsDistinct,
}
use standalone_dhcp.Net.{IpAddr, to4}
use standalone_dhcp.Convert.{Bytes}
use standalone_dhcp.Pool.{DhcpPool, Choice}
use standalone_dhcp.Pool.Choose.{IsChoice, contains}
use standalone_dhcp.Dhcp.{value_of, CacheApi, Dhcp4, World, Lib, MessageType}
use standalone_dhcp.Discover.Offer.{IsFair}
use standalone_dhcp.Tests.Table.{list_sql}

abbrev pub dated : {V : Type 0} → Option V → Option (V × ℤ)
dated none = none
dated (some v) = some (v, pos 0)

pub dated_lem : {V : Type 0} (o : Option V) → value_of (dated o) ≡ o
dated_lem none = refl
dated_lem (some v) = refl

pub lookup_nil : {V : Type 0} (k : String) → lookup {V = V} k [] ≡ none
unfolding lookup
lookup_nil k = refl

-- The entries with each key once.
unfoldable pub dated_items : {V : Type 0} → Map String V → Map String (V × ℤ)
dated_items [] = []
dated_items ((k, v) ∷ c) = insert k (v, pos 0) (dated_items c)

pub lookup-dated_items :
    {V : Type 0} (c : Map String V) (k : String) → value_of (lookup k (dated_items c)) ≡ lookup k c
unfolding dated_items lookup
lookup-dated_items [] k = refl
lookup-dated_items ((j, v) ∷ c) k =
    ground (arith, lookup-insert j k (v, pos 0) (dated_items c), lookup-dated_items c k)

pub dated_items-IsDistinct : {V : Type 0} (c : Map String V) → IsDistinct (dated_items c)
unfolding dated_items
dated_items-IsDistinct [] = tt
dated_items-IsDistinct ((k, v) ∷ c) =
    insert-IsDistinct k (v, pos 0) (dated_items c) (dated_items-IsDistinct c)

-- A cache from which nothing runs out.
abbrev pub map_cache : (V : Type 0) → CacheApi V
map_cache V = record {
  Cache = Map String V;
  new = λ ttl interval. [];
  get_with_expiration = λ c k. dated (lookup k c);
  items = dated_items;
  get = λ c k. lookup k c;
  set = λ c k v ttl. insert k v c;
  replace = λ c k v ttl. if is_some (lookup k c) then some (insert k v c) else none;
  delete = λ c k. delete k c;
  evicted = λ c k. lookup k c;
  get-new = λ ttl interval k. lookup_nil k;
  get_with_expiration_lem = λ c k. dated_lem (lookup k c);
  lookup-items = lookup-dated_items;
  items-IsDistinct = dated_items-IsDistinct;
  get-set = λ c k v ttl j. lookup-insert k j v c;
  get-delete = λ c k j. lookup-delete k j c;
  replace_lem = λ c k v ttl. refl;
  evicted-get = λ c k v e. e;
}

-- A packet as a record of what the program sets and reads.
pub record Fields : Type 0 where
  pub kind : Option MessageType
  pub chaddr : Bytes
  pub giaddr : IpAddr
  pub ciaddr : IpAddr
  pub yiaddr : IpAddr
  pub siaddr : IpAddr
  pub xid : Bytes
  pub options : Map ℕ Bytes

abbrev pub blank : Fields
blank = record {
  kind = none;
  chaddr = [];
  giaddr = 0 ∷ 0 ∷ 0 ∷ 0 ∷ [];
  ciaddr = 0 ∷ 0 ∷ 0 ∷ 0 ∷ [];
  yiaddr = 0 ∷ 0 ∷ 0 ∷ 0 ∷ [];
  siaddr = 0 ∷ 0 ∷ 0 ∷ 0 ∷ [];
  xid = 0 ∷ 0 ∷ 0 ∷ 7 ∷ [];
  options = [];
}

abbrev last_byte : IpAddr → ℕ
last_byte (a ∷ b ∷ c ∷ d ∷ _) = d
last_byte _ = 0

abbrev add_to : IpAddr → ℤ → IpAddr
add_to (a ∷ b ∷ c ∷ d ∷ _) (pos n) = a ∷ b ∷ c ∷ (d + n) ∷ []
add_to ip n = ip

abbrev pub field_packets : Dhcp4
field_packets = record {
  Packet = Fields;
  of_bytes = λ b. blank;
  to_bytes = λ p. p.xid;
  message_text = λ t. "";
  htype = λ p. 1 ∷ [];
  hlen = λ p. length p.chaddr;
  hops = λ p. 0 ∷ [];
  chaddr = λ p. p.chaddr;
  giaddr = λ p. p.giaddr;
  ciaddr = λ p. p.ciaddr;
  yiaddr = λ p. p.yiaddr;
  siaddr = λ p. p.siaddr;
  xid = λ p. p.xid;
  secs = λ p. [];
  flags = λ p. [];
  sname = λ p. [];
  file = λ p. [];
  parse_options = λ p. p.options;
  new_packet = λ n. blank;
  set_chaddr = λ a p. record p { chaddr = a };
  set_giaddr = λ a p. record p { giaddr = a };
  set_ciaddr = λ a p. record p { ciaddr = a };
  set_yiaddr = λ a p. record p { yiaddr = a };
  set_siaddr = λ a p. record p { siaddr = a };
  set_xid = λ a p. record p { xid = a };
  set_secs = λ a p. p;
  set_flags = λ a p. p;
  set_file = λ a p. p;
  set_broadcast = λ b p. p;
  add_option = λ k v p. record p { options = insert k v p.options };
  reply_packet = λ p t server address lease options. record blank {
    kind = some t;
    chaddr = p.chaddr;
    xid = p.xid;
    yiaddr = address;
    siaddr = server;
    options = options;
  };
  option_name = λ k. "Option";
  select_order_or_all = λ options order. options;
  ip_add = λ ip n. add_to (to4 ip) n;
  ip_range = λ a b. sub_ℕ (last_byte (to4 b) + 1) (last_byte (to4 a));
}

-- The choice that takes the keys as they stand, and the first of them.
abbrev keys : {V : Type 0} → Map ℕ V → List ℕ
keys [] = []
keys ((k, v) ∷ m) = k ∷ keys m

abbrev pub first_choice : DhcpPool → Choice
first_choice p = record {
  free_order = keys p.free;
  released_order = keys p.released;
  intn = λ n. 0;
}

contains-keys : {V : Type 0} (m : Map ℕ V) (k : ℕ) → contains (keys m) k ≡ has k m
unfolding lookup
contains-keys [] k = refl
contains-keys ((j, v) ∷ m) k = ground (arith, contains-keys m k)

length-keys : {V : Type 0} (m : Map ℕ V) → length (keys m) ≡ length m
length-keys [] = refl
length-keys ((j, v) ∷ m) = ap suc (length-keys m)

pub first_choice-IsChoice : (p : DhcpPool) → IsChoice p (first_choice p)
first_choice-IsChoice p = record {
  free_visit = contains-keys p.free;
  free_once = length-keys p.free;
  released_visit = contains-keys p.released;
  intn_range = λ n h. h;
}

-- A network where every ping is answered, or none.
abbrev pub world_of : Bool → World
world_of answers = record {
  ping = λ n a b name. answers;
  byte_to_string = λ b. "";
  long_string = λ ip. "";
  parse_ipv6 = λ b. [];
  choice = λ n p. first_choice p;
  draw = λ seed n i. 0;
}

abbrev pub lib_of : Bool → Lib
lib_of answers = record {
  dhcp4 = field_packets;
  ints = map_cache ℤ;
  texts = map_cache String;
  sql = list_sql;
  world = world_of answers;
}

pub lib_of-IsFair : (answers : Bool) → IsFair (lib_of answers)
lib_of-IsFair answers n p v = first_choice-IsChoice p
