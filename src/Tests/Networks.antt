-- ===== src/Tests/Networks.antt =====
-- The packet path at concrete inputs: 192.0.2.0/24, whose pool has the four addresses from
-- 192.0.2.10 on, and the server 192.0.2.1.
use standalone_dhcp.Prelude.{
  ℕ, ◌≡◌, ◌≢◌, refl, Bool, true, false, none, some, String, [], ◌∷◌, nat_eq, string_eq, arith,
}
use standalone_dhcp.Prelude.Int.{ℤ, pos, int_eq}
use standalone_dhcp.Prelude.Map.{Map, lookup}
use standalone_dhcp.Net.{IpAddr, to4, contains, masked_equal, ip_equal}
use standalone_dhcp.Pool.{DhcpPool, free_mac, new_dhcp_pool, fill}
use standalone_dhcp.Handler.{State, Handler, pool_of}
use standalone_dhcp.Override.{init_database}
use standalone_dhcp.Discover.{Request, Outcome, choose_index}
use standalone_dhcp.Discover.Held.{IsSized, OfferHolds, choose_index-OfferHolds}
use standalone_dhcp.Discover.Ends.{choose_index_ends}
use standalone_dhcp.Request.{Message}
use standalone_dhcp.Serve.{Network, serves, detect}
use standalone_dhcp.Prelude.{some, none}
use standalone_dhcp.Prelude.Map.{lookup}
use standalone_dhcp.Serve.Dispatch.{IsDetected, detect-IsDetected}
use standalone_dhcp.Tests.Libraries.{lib_of, lib_of-IsFair, Fields, blank}
use standalone_dhcp.Tests.Pools.{four, four-IsValid, three}

abbrev pub handler : (answers : Bool) → DhcpPool → Map String ℤ → Handler (lib_of answers)
handler answers pool cached = record {
  ip = 192 ∷ 0 ∷ 2 ∷ 1 ∷ [];
  options = [];
  start = 192 ∷ 0 ∷ 2 ∷ 10 ∷ [];
  lease_range = pos 4;
  lease_duration = pos 600;
  hwcache = cached;
  xid = [];
  available = pool;
  layer2 = true;
  role = "none";
  ip_reserved = [];
  ip_assigned = [];
}

abbrev pub state : (answers : Bool) → DhcpPool → Map String ℤ → State (lib_of answers)
state answers pool cached = record {
  handler = handler answers pool cached;
  transactions = [];
  requests = [];
  ips = [];
  macs = [];
  store = init_database (lib_of answers).sql [];
  timers = [];
}

-- A network on which no ping is answered: new, and with index 1 offered to a client.
abbrev pub fresh : State (lib_of false)
fresh = state false four []

abbrev pub offered : State (lib_of false)
offered = state false three (("02:00:00:00:00:01", pos 1) ∷ [])

abbrev pub client : Fields
client = record blank {
  chaddr = 2 ∷ 0 ∷ 0 ∷ 0 ∷ 0 ∷ 1 ∷ [];
  options = (50, 192 ∷ 0 ∷ 2 ∷ 11 ∷ []) ∷ [];
}

abbrev pub message : Message (lib_of false)
message = record {
  packet = client;
  client = "02:00:00:00:00:01";
  chaddr = client.chaddr;
  options = client.options;
  cache_key = "02:00:00:00:00:01 Request xID 7";
  xid_key = "7";
  if_address = 192 ∷ 0 ∷ 2 ∷ 1 ∷ [];
}

abbrev pub asks : (answers : Bool) → Request (lib_of answers)
asks answers = record {
  client = "02:00:00:00:00:01";
  xid_text = "7";
  requested = none;
  server = 192 ∷ 0 ∷ 2 ∷ 1 ∷ [];
  if_name = "eth0";
}

pub real : "02:00:00:00:00:01" ≢ free_mac
real = λ e.
    let h : false ≡ true = (string_eq.equal_iff "02:00:00:00:00:01" free_mac).1 e in ground arith

quiet : (n : ℕ) (a b : IpAddr) (name : String) → (lib_of false).world.ping n a b name ≡ false
quiet n a b name = refl

pub capacity-four : four.capacity ≡ 4
unfolding new_dhcp_pool fill
capacity-four = refl

dynamic : lookup (asks false).client fresh.handler.ip_assigned ≡ none
unfolding lookup
dynamic = refl

fresh-IsSized : IsSized (pool_of (lib_of false) fresh)
fresh-IsSized = (four-IsValid, rw capacity-four (omega arith))

choose_index_ends_example :
    (o : Outcome (State (lib_of false))) × (choose_index (lib_of false) 2 (asks false) fresh
      ≡ some o)
choose_index_ends_example = choose_index_ends (lib_of false) quiet (asks false) fresh

choose_index-OfferHolds_example :
    OfferHolds
      (lib_of false)
      (lib_of-IsFair false)
      quiet
      (asks false)
      real
      (choose_index (lib_of false) 2 (asks false) fresh)
choose_index-OfferHolds_example =
    choose_index-OfferHolds (lib_of false) (lib_of-IsFair false) quiet (asks false) real 2 fresh
      fresh-IsSized dynamic

abbrev pub network : Network (lib_of false)
network = record {
  network = record { ip = 192 ∷ 0 ∷ 2 ∷ 0 ∷ []; mask = 255 ∷ 255 ∷ 255 ∷ 0 ∷ [] };
  dhcp_handler = handler false four [];
  timers = [];
}

detect-IsDetected_example :
    IsDetected
      (lib_of false)
      client
      0
      (network ∷ [])
      (detect (lib_of false) client 0 (network ∷ []))
detect-IsDetected_example = detect-IsDetected (lib_of false) client 0 (network ∷ [])

pub served : serves (lib_of false) client network ≡ true
unfolding serves contains masked_equal ip_equal to4
served = refl
