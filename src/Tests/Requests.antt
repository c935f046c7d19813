-- ===== src/Tests/Requests.antt =====
-- Requests, releases and runs of the packet path at concrete inputs, on the network of Networks.
use standalone_dhcp.Prelude.{◌≡◌, ◌⊎◌, refl, false, none, some, [], ◌∷◌, nat_eq, string_eq}
use standalone_dhcp.Prelude.Int.{pos, int_eq}
use standalone_dhcp.Prelude.Map.{lookup, insert, delete}
use standalone_dhcp.Pool.{reserve_ip_index, new_dhcp_pool, fill, get_mac_index, index_in_pool}
use standalone_dhcp.Pool.Invariant.{IsValid}
use standalone_dhcp.Utils.{safe_int_to_uint64}
use standalone_dhcp.Handler.{State, pool_of, free_index}
use standalone_dhcp.Request.{in_range, serve_request, requested_ip, lease_num}
use standalone_dhcp.Request.Answers.{IsAnswered, serve_request-IsAnswered}
use standalone_dhcp.Release.{serve_release, fire}
use standalone_dhcp.Release.Quarantine.{GivesBack, serve_release_cases, serve_release-pool}
use standalone_dhcp.Prelude.{some, none}
use standalone_dhcp.Prelude.Map.{lookup, insert}
use standalone_dhcp.Handler.{Answer}
use standalone_dhcp.Dhcp.{request}
use standalone_dhcp.Request.{to_client}
use standalone_dhcp.Serve.{Interface, dispatch, serve_once, message_of}
use standalone_dhcp.Prelude.{◌++◌}
use standalone_dhcp.Pool.View.{view, free}
use standalone_dhcp.Release.{give_back, quarantine}
use standalone_dhcp.Handler.{hwcache_delete}
use standalone_dhcp.Serve.Quarantine.{IsReturn, returned_index, serve_release_frees}
use standalone_dhcp.Handler.{forget}
use standalone_dhcp.Discover.Settings.{settings_of}
use standalone_dhcp.Serve.Settings.{Run-settings}
use standalone_dhcp.Serve.Twice.{serve_once_twice}
use standalone_dhcp.Serve.Invariant.{wakes, Run, start, then_, Run-IsValid}
use standalone_dhcp.Tests.Libraries.{lib_of, lib_of-IsFair}
use standalone_dhcp.Tests.Pools.{three, three-IsValid}
use standalone_dhcp.Tests.Networks.{state, offered, message, real, client}
use standalone_dhcp.Tests.Libraries.{Fields}
use standalone_dhcp.Request.{Message}
use standalone_dhcp.Net.{to4}

serve_request-IsAnswered_example :
    IsAnswered
      (lib_of false)
      message
      "192.0.2.0"
      (requested_ip (lib_of false) message)
      offered
      (serve_request (lib_of false) message "192.0.2.0" offered)
serve_request-IsAnswered_example =
    serve_request-IsAnswered (lib_of false) message "192.0.2.0" offered

serve_release_cases_example :
    ((serve_release (lib_of false) message offered).1 ≡ offered)
    ⊎ GivesBack
        (lib_of false)
        message
        (lease_num (lib_of false) (requested_ip (lib_of false) message) offered)
        offered
        (serve_release (lib_of false) message offered).1
serve_release_cases_example = serve_release_cases (lib_of false) message offered

serve_release-pool_example :
    pool_of (lib_of false) (serve_release (lib_of false) message offered).1
    ≡ pool_of (lib_of false) offered
serve_release-pool_example = serve_release-pool (lib_of false) message offered real

-- The entry of the cache runs out, and 30 seconds later the index is free.
abbrev ran_out : State (lib_of false)
ran_out = record (state false three []) { timers = free_index 30 1 ∷ [] }

ran_out-Run :
    Run (lib_of false) ran_out (fire (lib_of false) 40 (free_index 30 1) (state false three []))
ran_out-Run = then_ start (wakes 40 (free_index 30 1) [] [] refl)

Run-IsValid_example :
    IsValid
      (pool_of (lib_of false) (fire (lib_of false) 40 (free_index 30 1) (state false three [])))
Run-IsValid_example = Run-IsValid (lib_of false) (lib_of-IsFair false) three-IsValid ran_out-Run

Run-settings_example :
    settings_of (lib_of false) (fire (lib_of false) 40 (free_index 30 1) (state false three []))
    ≡ settings_of (lib_of false) ran_out
Run-settings_example = Run-settings (lib_of false) ran_out-Run

abbrev eth : Interface (lib_of false)
eth = record { name = "eth0"; ipv4 = 192 ∷ 0 ∷ 2 ∷ 1 ∷ []; interface_type = ""; relay_ip = [] }

-- Two packets of a client with one transaction, the second of which asks for another address.
abbrev once_more : Fields
once_more = record client { options = (50, 192 ∷ 0 ∷ 2 ∷ 12 ∷ []) ∷ [] }

abbrev first_message : Message (lib_of false)
first_message = message_of (lib_of false) eth request client

-- The answer to the first one, and the state after it.
abbrev first_served : Answer (lib_of false) × State (lib_of false)
first_served =
    serve_request (lib_of false) first_message "192.0.2.0"
      (record offered { transactions = insert first_message.cache_key (pos 1) [] })

serves_first :
    serve_once (lib_of false) 2 eth [] "192.0.2.0" request first_message offered ≡ some first_served
unfolding serve_once dispatch lookup
serves_first = refl

serve_once_twice_example :
    serve_once
      (lib_of false)
      2
      eth
      []
      "192.0.2.0"
      request
      (message_of (lib_of false) eth request once_more)
      first_served.1
    ≡ some (
      to_client (lib_of false) (message_of (lib_of false) eth request once_more) [] none,
      first_served.1,
    )
serve_once_twice_example =
    serve_once_twice (lib_of false) 2 2 eth eth [] [] "192.0.2.0" "192.0.2.0" request client
      once_more first_served.0 offered first_served.1 refl refl serves_first

message-IsReturn : IsReturn (lib_of false) message offered
unfolding in_range safe_int_to_uint64 reserve_ip_index get_mac_index index_in_pool new_dhcp_pool
    fill insert delete lookup to4 requested_ip lease_num
message-IsReturn = record { formed = refl; inside = refl; cached = refl; owned = refl }

-- The goroutine that deletes the entry of the cache wakes up first, and starts another one.
abbrev given_back : State (lib_of false)
given_back = (serve_release (lib_of false) message offered).1

abbrev forgotten : State (lib_of false)
forgotten =
    fire (lib_of false) 600 (forget message.client)
      (record given_back { timers = free_index 600 1 ∷ [] })

asleep_before : given_back.timers ≡ [] ++ (forget message.client ∷ free_index 600 1 ∷ [])
unfolding serve_release give_back quarantine in_range safe_int_to_uint64 reserve_ip_index
    get_mac_index index_in_pool new_dhcp_pool fill insert delete lookup to4 requested_ip lease_num
asleep_before = refl

asleep :
    forgotten.timers
    ≡ (free_index 30 1 ∷ [])
      ++ (free_index 600 (returned_index (lib_of false) message offered) ∷ [])
unfolding fire hwcache_delete serve_release give_back quarantine in_range safe_int_to_uint64
    reserve_ip_index get_mac_index index_in_pool new_dhcp_pool fill insert delete lookup to4
    requested_ip lease_num
asleep = refl

serve_release_frees_example :
    (given_back.timers
      ≡ forget message.client
        ∷ free_index 600 (returned_index (lib_of false) message offered)
        ∷ offered.timers)
    × (view
          (pool_of (lib_of false) (
            fire
              (lib_of false)
              601
              (free_index 600 (returned_index (lib_of false) message offered))
              (record forgotten { timers = (free_index 30 1 ∷ []) ++ [] })))
          (returned_index (lib_of false) message offered)
        ≡ free)
serve_release_frees_example =
    serve_release_frees (lib_of false) (lib_of-IsFair false) message offered forgotten
      (free_index 30 1 ∷ []) [] 601 real three-IsValid message-IsReturn
      (then_ start (wakes 600 (forget message.client) [] (free_index 600 1 ∷ []) asleep_before))
      asleep
