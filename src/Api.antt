-- ===== src/Api.antt =====
-- api.go: the handlers on option overrides, as functions from a request and the store to a reply and
-- a new store. The router and the text form of requests and replies are libraries'.
pub mod Saved
pub mod Leases
pub mod Statistics
pub mod Pages
pub mod Configuration
use standalone_dhcp.Prelude.{
  refl, ℕ, ◌+◌, ◌<◌, Bool, true, false, not, ◌&&◌, ◌||◌, ◌≡◌, ◌⊎◌, inl, inr, Option, none, some,
  String, List, [], ◌∷◌, ◌==◌, nat_eq, string_eq, ltb, if◌then◌else◌, length, Bool-cases, arith,
}
use standalone_dhcp.Prelude.Int.{ℤ, pos, ltb_ℤ}
use standalone_dhcp.Convert.{DhcpOption}
use standalone_dhcp.Override.{
  Sql, Store, OptionOverride, Result, ok, err, DbError, no_rows, get_option_override,
  save_option_override, delete_option_override, list_option_overrides,
}
use Prim.Native.Char.{Char, char, code, IsScalar}

pub small-IsScalar : (n : ℕ) → n < 128 → IsScalar n
small-IsScalar n h = ground arith

pub lower_by : (n : ℕ) (c : Char) (b : Bool) → (ltb 64 n && ltb n 91) ≡ b → Char
lower_by n c true upper = char (n + 32) (small-IsScalar (n + 32) (ground arith))
lower_by n c false other = c

-- `strings.ToLower` of an ASCII text.
unfoldable pub to_lower : String → String
unfolding lower_by
to_lower String.[] = String.[]
to_lower (String.◌∷◌ c s) =
    String.◌∷◌ (lower_by (code c) c (ltb 64 (code c) && ltb (code c) 91) refl) (to_lower s)

-- What is written to the client: an error with its status, or the data of a success.
pub data Reply : Type 0 where
  refuses : ℕ → Reply
  saved : String → List DhcpOption → Reply
  removed : String → Reply
  listed : ℕ → List OptionOverride → Reply
  shown : OptionOverride → Reply

-- The loop that validates the options: a code of one byte, and a value.
unfoldable pub are_valid : List DhcpOption → Bool
are_valid [] = true
are_valid (o ∷ rest) =
    let later = are_valid rest in
    if ltb_ℤ o.option_code (pos 0) || ltb_ℤ (pos 255) o.option_code
    then false
    else if length o.option_value == 0
    then false
    else later

module _ (sql : Sql) where
  -- The reply to a save.
  abbrev saved_reply : String → List DhcpOption → Store sql × Result (Unit {0}) → Reply × Store sql
  saved_reply target options (s, ok done) = (saved target options, s)
  saved_reply target options (s, err e) = (refuses 500, s)

  -- The body as it is decoded: `none` is text that is no list of options.
  unfoldable pub handle_override_network_options :
      String → Option (List DhcpOption) → Store sql → Reply × Store sql
  handle_override_network_options network none s = (refuses 400, s)
  handle_override_network_options network (some options) s =
      if are_valid options
      then saved_reply network options (save_option_override sql "network" network options s)
      else (refuses 400, s)

  unfoldable pub handle_override_options :
      String → Option (List DhcpOption) → Store sql → Reply × Store sql
  handle_override_options mac none s = (refuses 400, s)
  handle_override_options mac (some options) s =
      if are_valid options
      then saved_reply (to_lower mac) options
          (save_option_override sql "mac" (to_lower mac) options s)
      else (refuses 400, s)

  -- The reply to a removal.
  abbrev removed_reply : String → Store sql × Result (Unit {0}) → Reply × Store sql
  removed_reply target (s, ok done) = (removed target, s)
  removed_reply target (s, err no_rows) = (refuses 404, s)
  removed_reply target (s, err e) = (refuses 500, s)

  unfoldable pub handle_remove_network_options : String → Store sql → Reply × Store sql
  handle_remove_network_options network s =
      removed_reply network (delete_option_override sql "network" network s)

  unfoldable pub handle_remove_options : String → Store sql → Reply × Store sql
  handle_remove_options mac s =
      removed_reply (to_lower mac) (delete_option_override sql "mac" (to_lower mac) s)

  abbrev listed_reply : Result (List OptionOverride) → Reply
  listed_reply (ok overrides) = listed (length overrides) overrides
  listed_reply (err e) = refuses 500

  -- The empty text is a query without a type.
  unfoldable pub handle_list_option_overrides : String → Store sql → Reply
  handle_list_option_overrides type s =
      if not (type == "") && (not (type == "network") && not (type == "mac"))
      then refuses 400
      else listed_reply (list_option_overrides sql s.db type)

  abbrev shown_reply : Result (Option OptionOverride) → Reply
  shown_reply (ok (some o)) = shown o
  shown_reply (ok none) = refuses 404
  shown_reply (err e) = refuses 500

  -- It reads the database, and not the cache.
  unfoldable pub handle_get_option_override : String → String → Store sql → Reply
  handle_get_option_override type target s =
      if not (type == "network") && not (type == "mac")
      then refuses 400
      else shown_reply
          (get_option_override sql s.db type (if type == "mac" then to_lower target else target))
