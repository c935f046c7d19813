-- ===== src/Api/Pages.antt =====
-- api.go and main.go: the handlers on the statistics of an interface, and the table of interfaces that
-- they read. `none` is a panic on the way, or a range without an end.
pub mod Answered
use standalone_dhcp.Prelude.{
  ℕ, Option, none, some, String, List, [], ◌∷◌, ◌++◌, ◌==◌, nat_eq, string_eq, if◌then◌else◌,
  length,
}
use standalone_dhcp.Prelude.Map.{Map, lookup, insert}
use standalone_dhcp.Net.{IpAddr}
use standalone_dhcp.Convert.{Bytes, split}
use standalone_dhcp.Texts.{text_bytes}
use standalone_dhcp.Ini.{Ini}
use standalone_dhcp.Dhcp.{Lib}
use standalone_dhcp.Config.Interfaces.{EthIf}
use standalone_dhcp.Api.Statistics.{Stats, no_stats, ApiReq, handle_api_req}

-- What is written: an error with its status, or the statistics.
pub data StatsReply : Type 0 where
  rejected : ℕ → StatsReply
  stats : List Stats → StatsReply
  -- `Items`, with its status.
  items : String → List Stats → StatsReply

module _ (lib : Lib) (inc : IpAddr → IpAddr) (fuel : ℕ) (of_bytes : Bytes → String) where
  -- `intNametoInterface`: of two interfaces with one name the later one is kept.
  unfoldable pub int_name_to_interface :
      List (EthIf lib) → Map String (EthIf lib) → Map String (EthIf lib)
  int_name_to_interface [] table = table
  int_name_to_interface (e ∷ rest) table =
      int_name_to_interface rest (insert e.interface.name e table)

  abbrev pub stats_reply : Option (List Stats) → Option StatsReply
  stats_reply none = none
  stats_reply (some l) = some (stats l)

  abbrev pub stats_request : String → String → ApiReq
  stats_request int network = record {
    req = "stats";
    net_interface = int;
    net_work = network;
    role = "";
  }

  unfoldable pub handle_stats : Map String (EthIf lib) → String → String → Option StatsReply
  handle_stats table int network = elim (lookup int table) [
    | none ↦ some (rejected 404)
    | some h ↦ stats_reply (handle_api_req lib inc fuel of_bytes h (stats_request int network))
  ]

  unfoldable pub handle_debug : Map String (EthIf lib) → String → String → Option StatsReply
  handle_debug table int role = elim (lookup int table) [
    | none ↦ some (rejected 404)
    | some h ↦ stats_reply (
        handle_api_req lib inc fuel of_bytes h
          (record { req = "debug"; net_interface = int; net_work = ""; role = role }))
  ]

  abbrev pub append_stats : Option (List Stats) → Option (List Stats) → Option (List Stats)
  append_stats none rest = none
  append_stats (some l) none = none
  append_stats (some l) (some rest) = some (l ++ rest)

  -- The loop over the interfaces that the file names.
  unfoldable pub all_stats : Map String (EthIf lib) → List Bytes → Option (List Stats)
  all_stats table [] = some []
  all_stats table (name ∷ names) = elim (lookup (of_bytes name) table) [
    | none ↦ all_stats table names
    | some h ↦
        append_stats (handle_api_req lib inc fuel of_bytes h (stats_request (of_bytes name) ""))
          (all_stats table names)
  ]

  abbrev pub items_reply : Option (List Stats) → Option StatsReply
  items_reply none = none
  items_reply (some l) = some (items "200" l)

  abbrev pub listed_stats : Map String (EthIf lib) → Bytes → Option (List Stats)
  listed_stats table interfaces =
      append_stats (some (if length interfaces == 0 then no_stats ∷ [] else []))
        (all_stats table (split b',' interfaces))

  -- `handleAllStats`, on the file as it loads.
  unfoldable pub handle_all_stats :
      (ini : Ini) → Option ini.File → Map String (EthIf lib) → Option StatsReply
  handle_all_stats ini none table = some (rejected 500)
  handle_all_stats ini (some cfg) table =
      items_reply (listed_stats table (ini.value cfg (text_bytes "interfaces") "listen"))
