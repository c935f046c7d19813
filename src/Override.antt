-- ===== src/Override.antt =====
-- database.go: the option overrides, behind the table of the database and its cache in memory.
-- SQLite and the text form of the options are parameters.
pub mod Coherence
pub mod Precedence
use standalone_dhcp.Prelude.{
  ℕ, Bool, true, false, ◌≡◌, ◌≢◌, ◌⊎◌, Option, none, some, String, List, [], ◌∷◌, ◌==◌, nat_eq,
  string_eq, if◌then◌else◌,
}
use standalone_dhcp.Prelude.Map.{Map, lookup, insert, delete}
use standalone_dhcp.Net.{IpAddr}
use standalone_dhcp.Convert.{Bytes, DhcpOption, convert_option_to_dhcp}
use Prim.Native.String.{◌++◌}

-- A row of `dhcp_option_overrides`, its options in their text form.
pub record Row : Type 0 where
  pub id : ℕ
  pub type : String
  pub target : String
  pub options : String
  pub created_at : ℕ
  pub updated_at : ℕ

pub record OptionOverride : Type 0 where
  pub id : ℕ
  pub type : String
  pub target : String
  pub options : List DhcpOption
  pub created_at : ℕ
  pub updated_at : ℕ

pub data DbError : Type 0 where
  marshal_failed save_failed get_failed unmarshal_failed delete_failed list_failed no_rows : DbError

pub data Result {ℓ} (A : Type ℓ) : Type ℓ where
  ok : A → Result A
  err : DbError → Result A

-- The table, keyed by type and target. `none` is an error of the database, which then changes
-- nothing; the laws are those of the statements that the program runs.
pub record Sql : Type 1 where
  pub Db : Type 0
  pub select_row : Db → String → String → Option (Option Row)
  pub upsert : Db → String → String → String → Option Db
  pub delete_row : Db → String → String → Option (Db × ℕ)
  pub select_all : Db → Option String → Option (List Row)
  pub marshal : List DhcpOption → Option String
  pub unmarshal : String → Option (List DhcpOption)
  pub upsert_other :
      (db db' : Db) (t k o t' k' : String)
      → upsert db t k o ≡ some db'
      → (t ≢ t') ⊎ (k ≢ k')
      → select_row db' t' k' ≡ select_row db t' k'
  pub upsert_self :
      (db db' : Db) (t k o : String)
      → upsert db t k o ≡ some db'
      → (r : Row) × (select_row db' t k ≡ some (some r)) × (r.options ≡ o)
  pub delete_row_other :
      (db db' : Db) (n : ℕ) (t k t' k' : String)
      → delete_row db t k ≡ some (db', n)
      → (t ≢ t') ⊎ ((k ≢ k') ⊎ (n ≡ 0))
      → select_row db' t' k' ≡ select_row db t' k'
  pub delete_row_self :
      (db db' : Db) (n : ℕ) (t k : String)
      → delete_row db t k ≡ some (db', n)
      → select_row db' t k ≡ some none
  pub unmarshal-marshal :
      (options : List DhcpOption) (o : String)
      → marshal options ≡ some o
      → unmarshal o ≡ some options

abbrev pub override_cache_key : String → String → String
override_cache_key override_type target = override_type ++ ("\0" ++ target)

module _ (sql : Sql) where
  open sql use {Db, select_row, upsert, delete_row, select_all, marshal, unmarshal}

  -- The database and the cache; a cached `none` says that there is no override.
  pub record Store : Type 0 where
    pub db : Db
    pub cache : Map String (Option OptionOverride)

  -- `InitDatabase` on an open database: the cache starts empty.
  abbrev pub init_database : Db → Store
  init_database db = record { db = db; cache = [] }

  -- The JSON text of a row is read back.
  abbrev with_options : Row → Option (List DhcpOption) → Result (Option OptionOverride)
  with_options r none = err unmarshal_failed
  with_options r (some opts) = ok (
      some (record {
        id = r.id;
        type = r.type;
        target = r.target;
        options = opts;
        created_at = r.created_at;
        updated_at = r.updated_at;
      }))

  abbrev of_row : Option (Option Row) → Result (Option OptionOverride)
  of_row none = err get_failed
  of_row (some none) = ok none
  of_row (some (some r)) = with_options r (unmarshal r.options)

  unfoldable pub get_option_override : Db → String → String → Result (Option OptionOverride)
  get_option_override db override_type target = of_row (select_row db override_type target)

  unfoldable pub invalidate_override_cache : String → String → Store → Store
  invalidate_override_cache override_type target s = record s {
    cache = delete (override_cache_key override_type target) s.cache;
  }

  -- What a fetch from the database leaves in the cache, and answers.
  unfoldable pub remember :
      String → Store → Result (Option OptionOverride) → Store × Result (Option OptionOverride)
  remember key s (err e) = (s, err e)
  remember key s (ok v) = (record s { cache = insert key v s.cache }, ok v)

  unfoldable pub cached_get_option_override :
      String → String → Store → Store × Result (Option OptionOverride)
  cached_get_option_override override_type target s =
      let key = override_cache_key override_type target in
      elim (lookup key s.cache) [
        | some cached ↦ (s, ok cached)
        | none ↦ remember key s (get_option_override s.db override_type target)
      ]

  unfoldable pub save_option_override :
      String → String → List DhcpOption → Store → Store × Result (Unit {0})
  save_option_override override_type target options s = elim (marshal options) [
    | none ↦ (s, err marshal_failed)
    | some text ↦ elim (upsert s.db override_type target text) [
      | none ↦ (s, err save_failed)
      | some db' ↦ (invalidate_override_cache override_type target (record s { db = db' }), ok tt)
    ]
  ]

  unfoldable pub delete_option_override : String → String → Store → Store × Result (Unit {0})
  delete_option_override override_type target s = elim (delete_row s.db override_type target) [
    | none ↦ (s, err delete_failed)
    | some (db', rows) ↦
        if rows == 0
        then (record s { db = db' }, err no_rows)
        else (invalidate_override_cache override_type target (record s { db = db' }), ok tt)
  ]

  -- The rows of a listing, each with its options read back; one that does not read back is an error.
  unfoldable pub read_rows : List Row → Result (List OptionOverride)
  read_rows [] = ok []
  read_rows (r ∷ rest) = elim (unmarshal r.options) [
    | none ↦ err unmarshal_failed
    | some opts ↦ elim (read_rows rest) [
      | err e ↦ err e
      | ok more ↦ ok (
          record {
            id = r.id;
            type = r.type;
            target = r.target;
            options = opts;
            created_at = r.created_at;
            updated_at = r.updated_at;
          }
          ∷ more)
    ]
  ]

  -- The empty text lists all types.
  unfoldable pub list_option_overrides : Db → String → Result (List OptionOverride)
  list_option_overrides db override_type =
      elim (select_all db (if override_type == "" then none else some override_type)) [
        | none ↦ err list_failed
        | some rows ↦ read_rows rows
      ]

  -- The loop over the options of one override: an option that does not convert is skipped.
  unfoldable pub apply_options : (Bytes → IpAddr) → List DhcpOption → Map ℕ Bytes → Map ℕ Bytes
  apply_options parse_ipv6 [] result = result
  apply_options parse_ipv6 (opt ∷ rest) result = elim (convert_option_to_dhcp parse_ipv6 opt) [
    | none ↦ apply_options parse_ipv6 rest result
    | some (code, value) ↦ apply_options parse_ipv6 rest (insert code value result)
  ]

  abbrev pub options_of : Result (Option OptionOverride) → List DhcpOption
  options_of (err e) = []
  options_of (ok none) = []
  options_of (ok (some o)) = o.options

  -- One level of overrides; a target that is the empty text is not looked up.
  unfoldable pub apply_level :
      (Bytes → IpAddr) → String → String → Store × Map ℕ Bytes → Store × Map ℕ Bytes
  apply_level parse_ipv6 override_type target (s, result) =
      if target == ""
      then (s, result)
      else let (s', found) = cached_get_option_override override_type target s in
        (s', apply_options parse_ipv6 (options_of found) result)

  -- The overrides of the network first, then those of the hardware address over them.
  unfoldable pub apply_option_overrides :
      (Bytes → IpAddr) → Map ℕ Bytes → String → String → Store → Store × Map ℕ Bytes
  apply_option_overrides parse_ipv6 options network_ip mac s =
      apply_level parse_ipv6 "mac" mac (apply_level parse_ipv6 "network" network_ip (s, options))
