-- ===== src/Tests/Stores.antt =====
-- The option overrides at concrete inputs.
use standalone_dhcp.Prelude.{ℕ, ◌≡◌, refl, String, List, [], ◌∷◌, nat_eq, string_eq}
use standalone_dhcp.Prelude.Map.{Map, lookup}
use standalone_dhcp.Convert.{Bytes}
use standalone_dhcp.Override.{
  Store, init_database, get_option_override, cached_get_option_override, save_option_override,
  delete_option_override, apply_option_overrides,
}
use standalone_dhcp.Override.Coherence.{
  IsCoherent, network, init_database-IsCoherent, Reach, here, next, saves, deletes, reads,
  cached_get_option_override-refines,
}
use standalone_dhcp.Override.Precedence.{
  or_else, last_value, overrides_for, lookup-apply_option_overrides,
}
use standalone_dhcp.Api.{refuses, are_valid, handle_override_options}
use standalone_dhcp.Tests.Table.{lab}
use standalone_dhcp.Override.{Store, save_option_override}
use standalone_dhcp.Prelude.{refl, some}
use standalone_dhcp.Tests.Table.{list_sql}

abbrev table : List (String × String × String)
table = ("network", "192.0.2.0", "lab") ∷ ("mac", "02:00:00:00:00:01", "office") ∷ []

abbrev opened : Store list_sql
opened = init_database list_sql table

abbrev no_options : Map ℕ Bytes
no_options = []

-- A read, a save over it, and a deletion of something else.
abbrev used : Store list_sql
used =
    (delete_option_override list_sql "mac" "02:00:00:00:00:01"
      (save_option_override list_sql "network" "192.0.2.0" []
        (cached_get_option_override list_sql "network" "192.0.2.0" opened).0).0).0

used-Reach : Reach list_sql opened used
used-Reach =
    next
      (next (next here (reads "network" "192.0.2.0" (network refl)))
        (saves "network" "192.0.2.0" []))
      (deletes "mac" "02:00:00:00:00:01")

cached_get_option_override-refines_example :
    (cached_get_option_override list_sql "network" "192.0.2.0" used).1
    ≡ get_option_override list_sql used.db "network" "192.0.2.0"
cached_get_option_override-refines_example =
    cached_get_option_override-refines list_sql table "network" "192.0.2.0" used-Reach
      (network refl)

lookup-apply_option_overrides_example :
    (lookup 15
        (apply_option_overrides list_sql
          (λ b. [])
          no_options
          "192.0.2.0"
          "02:00:00:00:00:01"
          opened).1
      ≡ or_else
          (last_value
            (λ b. [])
            15
            (overrides_for list_sql (λ b. []) opened.db "mac" "02:00:00:00:00:01"))
          (or_else
            (last_value
              (λ b. [])
              15
              (overrides_for list_sql (λ b. []) opened.db "network" "192.0.2.0"))
            (lookup 15 no_options)))
    × IsCoherent list_sql
        (apply_option_overrides list_sql
          (λ b. [])
          no_options
          "192.0.2.0"
          "02:00:00:00:00:01"
          opened).0
    × ((apply_option_overrides list_sql
          (λ b. [])
          no_options
          "192.0.2.0"
          "02:00:00:00:00:01"
          opened).0.db
        ≡ opened.db)
lookup-apply_option_overrides_example =
    lookup-apply_option_overrides list_sql (λ b. []) no_options "192.0.2.0" "02:00:00:00:00:01"
      opened 15 (init_database-IsCoherent list_sql table)

-- An option posted for a hardware address in capitals.
abbrev capital : String
capital = "02:00:00:00:00:AB"

abbrev small : String
small = "02:00:00:00:00:ab"

abbrev posted : Store list_sql
posted = (handle_override_options list_sql capital (some (lab ∷ [])) opened).1

refused :
    handle_override_options list_sql capital (some (record lab { option_value = [] } ∷ [])) opened
    ≡ (refuses 400, opened)
unfolding handle_override_options are_valid
refused = refl
