-- ===== src/Tests/Pings.antt =====
-- A DISCOVER whose pings are answered, on the network of Networks.
use standalone_dhcp.Prelude.{◌≡◌, ◌<◌, refl, none, some, [], ◌∷◌, ◌==◌, nat_eq, arith, true}
use standalone_dhcp.Prelude.Int.{pos, int_eq}
use standalone_dhcp.Prelude.Map.{lookup, insert, delete}
use standalone_dhcp.Pool.{DhcpPool, reserve_ip_index, new_dhcp_pool, fill, free_ips_remaining}
use standalone_dhcp.Pool.Invariant.{IsValid, reserve_ip_index-IsValid}
use standalone_dhcp.Pool.View.{view, held}
use standalone_dhcp.Dhcp.{Lib}
use standalone_dhcp.Handler.{State, pool_of}
use standalone_dhcp.Override.{init_database}
use standalone_dhcp.Discover.{Request, offers, choose_index}
use standalone_dhcp.Discover.Offer.{IsFair}
use standalone_dhcp.Discover.Pings.{IsNewcomer, choose_index_after_ping, choose_index_never_ends}
use standalone_dhcp.Tests.Libraries.{lib_of, lib_of-IsFair, world_of}
use standalone_dhcp.Tests.Pools.{four, four-IsValid}
use standalone_dhcp.Tests.Networks.{state, asks, real, capacity-four}

-- Every ping is answered.
asks-IsNewcomer : IsNewcomer (lib_of true) (asks true) (state true four [])
unfolding lookup
asks-IsNewcomer = record {
  real = real;
  valid = four-IsValid;
  small = rw capacity-four (omega arith);
  dynamic = refl;
  missing = refl;
  unasked = refl;
}

room-four : 2 < free_ips_remaining four
unfolding free_ips_remaining new_dhcp_pool fill insert
room-four = omega arith

choose_index_never_ends_example :
    choose_index (lib_of true) 9 (asks true) (state true four []) ≡ none
choose_index_never_ends_example =
    choose_index_never_ends (lib_of true) (lib_of-IsFair true) 9 (asks true) (state true four [])
      asks-IsNewcomer room-four (λ n a b name. refl)

-- Only the first ping is answered, and another client holds index 0.
abbrev once_lib : Lib
once_lib = record (lib_of true) { world = record (world_of true) { ping = λ n a b name. n == 0 } }

once-IsFair : IsFair once_lib
once-IsFair = lib_of-IsFair true

abbrev zero_held : DhcpPool
zero_held = (reserve_ip_index 0 "02:00:00:00:00:02" four).0

zero_held-IsValid : IsValid zero_held
zero_held-IsValid = reserve_ip_index-IsValid 0 "02:00:00:00:00:02" four four-IsValid

capacity-zero_held : zero_held.capacity ≡ 4
unfolding reserve_ip_index new_dhcp_pool fill insert delete lookup
capacity-zero_held = refl

slot_zero : view zero_held 0 ≡ held "02:00:00:00:00:02"
unfolding reserve_ip_index new_dhcp_pool fill insert delete lookup
slot_zero = refl

room-zero_held : 1 < free_ips_remaining zero_held
unfolding free_ips_remaining reserve_ip_index new_dhcp_pool fill insert delete lookup
room-zero_held = omega arith

abbrev once_asks : Request once_lib
once_asks = record {
  client = "02:00:00:00:00:01";
  xid_text = "7";
  requested = none;
  server = 192 ∷ 0 ∷ 2 ∷ 1 ∷ [];
  if_name = "eth0";
}

abbrev once_state : State once_lib
once_state = record {
  handler = record {
    ip = 192 ∷ 0 ∷ 2 ∷ 1 ∷ [];
    options = [];
    start = 192 ∷ 0 ∷ 2 ∷ 10 ∷ [];
    lease_range = pos 4;
    lease_duration = pos 600;
    hwcache = [];
    xid = [];
    available = zero_held;
    layer2 = true;
    role = "none";
    ip_reserved = [];
    ip_assigned = [];
  };
  transactions = [];
  requests = [];
  ips = [];
  macs = [];
  store = init_database once_lib.sql [];
  timers = [];
}

once-IsNewcomer : IsNewcomer once_lib once_asks once_state
unfolding lookup
once-IsNewcomer = record {
  real = real;
  valid = zero_held-IsValid;
  small = rw capacity-zero_held (omega arith);
  dynamic = refl;
  missing = refl;
  unasked = refl;
}

choose_index_after_ping_example :
    (s' : State once_lib) × (choose_index once_lib 2 once_asks once_state
      ≡ some (offers (pos 0) s'))
    × (view (pool_of once_lib s') 0 ≡ held "02:00:00:00:00:02")
choose_index_after_ping_example =
    choose_index_after_ping once_lib once-IsFair 0 once_asks once_state "02:00:00:00:00:02"
      once-IsNewcomer slot_zero room-zero_held (λ a b name. refl) (λ a b name. refl)
