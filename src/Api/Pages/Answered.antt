-- ===== src/Api/Pages/Answered.antt =====
-- api.go: every request for statistics of the interfaces of the configuration is answered.
use standalone_dhcp.Prelude.{
  ◌≡◌, refl, sym, subst, Option, none, some, String, List, [], ◌∷◌, nat_eq, string_eq, All, arith,
  Option-cases, Bool-cases, inl, inr,
}
use standalone_dhcp.Prelude.Map.{Map, lookup, insert, insert_cases}
use standalone_dhcp.Convert.{Bytes, split}
use standalone_dhcp.Texts.{text_bytes}
use standalone_dhcp.Ini.{Ini}
use standalone_dhcp.Dhcp.{Lib}
use standalone_dhcp.Serve.{Network}
use standalone_dhcp.Config.{Setting}
use standalone_dhcp.Config.Interfaces.{EthIf}
use standalone_dhcp.Config.Sections.{IsConfigured}
use standalone_dhcp.Api.Statistics.{Stats, ApiReq, is_shown, cons_stats, stats_list, handle_api_req}
use standalone_dhcp.Api.Statistics.Total.{stats_of-some}
use standalone_dhcp.Api.Statistics.Running.{IsRunning, IsRunning-SameSettings}
use standalone_dhcp.Handler.{State}
use standalone_dhcp.Serve.Invariant.{start}
use standalone_dhcp.Api.Pages.{
  int_name_to_interface, stats_reply, stats_request, append_stats, all_stats, items_reply,
  listed_stats, handle_all_stats,
}

-- Some value.
abbrev pub IsSome {ℓ} : {A : Type ℓ} → Option A → Type 0
IsSome none = ⊥
IsSome (some a) = Unit

module _ (lib : Lib) (env : Setting) (of_bytes : Bytes → String) where
  abbrev pub AllRunning : EthIf lib → Type 0
  AllRunning e = All (IsRunning lib env of_bytes) e.network

  -- A network runs from the handler that it was configured with.
  configured-IsRunning :
      (s : State lib) (l : List (Network lib))
      → All (IsConfigured lib env) l
      → All (IsRunning lib env of_bytes) l
  configured-IsRunning s [] h = tt
  configured-IsRunning s (v ∷ l) h = (
    record {
      origin = v;
      configured = h.0;
      first = record s { handler = v.dhcp_handler };
      last = record s { handler = v.dhcp_handler };
      begins = refl;
      runs = start;
      reached = refl;
    },
    configured-IsRunning s l h.1,
  )

  pub All-AllRunning :
      (s : State lib) (l : List (EthIf lib))
      → All (λ (e : EthIf lib). All (IsConfigured lib env) e.network) l
      → All AllRunning l
  All-AllRunning s [] h = tt
  All-AllRunning s (e ∷ l) h = (configured-IsRunning s e.network h.0, All-AllRunning s l h.1)

  cons-IsSome :
      (s : Option Stats) (l : Option (List Stats))
      → IsSome s
      → IsSome l
      → IsSome (cons_stats lib env.inc env.fuel of_bytes s l)
  cons-IsSome none l h k = h
  cons-IsSome (some s) none h k = k
  cons-IsSome (some s) (some l) h k = tt

  append-IsSome :
      (s l : Option (List Stats))
      → IsSome s
      → IsSome l
      → IsSome (append_stats lib env.inc env.fuel of_bytes s l)
  append-IsSome none l h k = h
  append-IsSome (some s) none h k = k
  append-IsSome (some s) (some l) h k = tt

  stats_list-IsSome :
      (q : ApiReq) (l : List (Network lib))
      → All (IsRunning lib env of_bytes) l
      → IsSome (stats_list lib env.inc env.fuel of_bytes q l)
  unfolding stats_list
  stats_list-IsSome q [] h = tt
  stats_list-IsSome q (w ∷ l) (r, h) =
      elim (Bool-cases (is_shown lib env.inc env.fuel of_bytes q.net_work w)) [
        | inr away ↦ rw away (stats_list-IsSome q l h)
        | inl here_ ↦ rw here_ (
            let (s, e) =
              stats_of-some lib env of_bytes q.net_interface r.origin w r.configured
                (IsRunning-SameSettings lib env of_bytes w r) in
            cons-IsSome _ (stats_list lib env.inc env.fuel of_bytes q l) (subst IsSome (sym e) tt)
              (stats_list-IsSome q l h))
      ]

  request-IsSome :
      (e : EthIf lib) (int network : String)
      → AllRunning e
      → IsSome (
          handle_api_req lib env.inc env.fuel of_bytes e
            (stats_request lib env.inc env.fuel of_bytes int network))
  unfolding handle_api_req
  request-IsSome e int network h =
      stats_list-IsSome (stats_request lib env.inc env.fuel of_bytes int network) e.network h

  -- Every interface of a table.
  abbrev TableRunning : Map String (EthIf lib) → Type 0
  TableRunning table = (name : String) (e : EthIf lib) → lookup name table ≡ some e → AllRunning e

  table-TableRunning :
      (l : List (EthIf lib)) (table : Map String (EthIf lib))
      → All AllRunning l
      → TableRunning table
      → TableRunning (int_name_to_interface lib env.inc env.fuel of_bytes l table)
  unfolding int_name_to_interface
  table-TableRunning [] table h t = t
  table-TableRunning (e ∷ l) table h t =
      table-TableRunning l (insert e.interface.name e table) h.1 (λ name f found.
        elim (insert_cases e.interface.name name e f table found) [
          | inl own ↦ subst AllRunning own.1 h.0
          | inr other ↦ t name f other
        ])

  no_interfaces : TableRunning []
  unfolding lookup
  no_interfaces name e h = absurd (ground (arith, h))

  all_stats-IsSome :
      (table : Map String (EthIf lib)) (names : List Bytes)
      → TableRunning table
      → IsSome (all_stats lib env.inc env.fuel of_bytes table names)
  unfolding all_stats
  all_stats-IsSome table [] t = tt
  all_stats-IsSome table (name ∷ names) t = elim (Option-cases (lookup (of_bytes name) table)) [
    | inl absent ↦ rw (absent, all_stats) (all_stats-IsSome table names t)
    | inr (e, found) ↦
        rw (found, all_stats)
          (append-IsSome _ (all_stats lib env.inc env.fuel of_bytes table names)
            (request-IsSome e (of_bytes name) "" (t (of_bytes name) e found))
            (all_stats-IsSome table names t))
  ]

  items-IsSome :
      (r : Option (List Stats)) → IsSome r → IsSome (items_reply lib env.inc env.fuel of_bytes r)
  items-IsSome none h = h
  items-IsSome (some l) h = tt

  stats_reply-IsSome :
      (r : Option (List Stats)) → IsSome r → IsSome (stats_reply lib env.inc env.fuel of_bytes r)
  stats_reply-IsSome none h = h
  stats_reply-IsSome (some l) h = tt

  -- If every network of the interfaces is one that the configuration made, at any time after
  -- however packets, goroutines, expiries and releases through the API followed each other on it: a
  -- request for all statistics is answered without a panic and with an end, whatever the file has,
  -- and also if it does not load.
  pub handle_all_stats-IsSome :
      (ini : Ini) (file : Option ini.File) (l : List (EthIf lib))
      → All AllRunning l
      → IsSome (
          handle_all_stats lib env.inc env.fuel of_bytes ini file
            (int_name_to_interface lib env.inc env.fuel of_bytes l []))
  unfolding handle_all_stats
  handle_all_stats-IsSome ini none l h = tt
  handle_all_stats-IsSome ini (some cfg) l h =
      let table = int_name_to_interface lib env.inc env.fuel of_bytes l [] in
      items-IsSome
        (listed_stats lib env.inc env.fuel of_bytes table
          (ini.value cfg (text_bytes "interfaces") "listen"))
        (append-IsSome (some _)
          (all_stats lib env.inc env.fuel of_bytes table
            (split b',' (ini.value cfg (text_bytes "interfaces") "listen")))
          tt (all_stats-IsSome table _ (table-TableRunning l [] h no_interfaces)))
