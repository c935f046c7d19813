-- ===== src/Release.antt =====
-- interface.go, `ServeDHCP`, the cases `dhcp.Release` and `dhcp.Decline`, whose code is the same, and
-- the goroutines that sleep.
pub mod Quarantine
use standalone_dhcp.Prelude.{
  ℕ, Bool, true, false, Option, none, some, String, List, [], ◌∷◌, ◌==◌, string_eq, if◌then◌else◌,
  length, nat_eq,
}
use standalone_dhcp.Prelude.Int.{ℤ, int_eq}
use standalone_dhcp.Net.{IpAddr, to4}
use standalone_dhcp.Pool.{get_mac_index, reserve_ip_index, free_ip_index, fake_mac}
use standalone_dhcp.Utils.{safe_int_to_uint64}
use standalone_dhcp.Dhcp.{Lib}
use standalone_dhcp.Handler.{
  State, Handler, Answer, Timer, free_index, forget, start_timer, with_pool, pool_of,
  hwcache_delete,
}
use standalone_dhcp.Request.{Message, requested_ip, lease_num, in_range, to_client}

module _ (lib : Lib) where
  open lib use {ints}

  -- The index is meant to be marked, and freed in ten minutes; the entry of the cache is deleted by
  -- a goroutine of its own.
  unfoldable pub quarantine : Message lib → ℤ → State lib → State lib
  quarantine m index s = start_timer lib (forget m.client) (
      start_timer lib (free_index 600 (safe_int_to_uint64 index))
        (with_pool lib (reserve_ip_index (safe_int_to_uint64 index) fake_mac (pool_of lib s)).0 s))

  unfoldable pub give_back : Message lib → ℤ → State lib → State lib
  give_back m index s = elim (ints.get s.handler.hwcache m.client) [
    | none ↦ s
    | some x ↦
        if index == x
        then (if (get_mac_index (safe_int_to_uint64 x) (pool_of lib s)).1 == m.client
            then quarantine m index s
            else s)
        else s
  ]

  unfoldable pub serve_release : Message lib → State lib → Answer lib × State lib
  serve_release m s =
      let address = requested_ip lib m in
      let index = lease_num lib address s in
      if length (to4 address) == 0
      then (to_client lib m [] none, s)
      else (to_client lib m [] none, (if in_range lib index s then give_back m index s else s))

  -- What a goroutine does when it wakes up.
  unfoldable pub fire : ℕ → Timer → State lib → State lib
  fire now (free_index delay index) s = with_pool lib (free_ip_index now index (pool_of lib s)).0 s
  fire now (forget client) s = hwcache_delete lib client s
