-- ===== src/Override/Precedence.antt =====
-- database.go: which value an option has after the overrides.
use standalone_dhcp.Prelude.{
  ℕ, ◌≡◌, inl, inr, refl, ◌∙◌, Option, none, some, String, List, [], ◌∷◌, ◌==◌, nat_eq, string_eq,
  if◌then◌else◌, arith, Bool-cases, Option-cases,
}
use standalone_dhcp.Prelude.Map.{Map, lookup, insert, lookup-insert}
use mathlib.Core.Path.{ap₂}
use standalone_dhcp.Net.{IpAddr}
use standalone_dhcp.Convert.{Bytes, DhcpOption, convert_option_to_dhcp}
use standalone_dhcp.Override.{
  Sql, Store, get_option_override, apply_options, options_of, apply_level, apply_option_overrides,
}
use standalone_dhcp.Override.Coherence.{
  IsCoherent, IsType, network, mac, cached_get_option_override-IsCoherent,
}

abbrev pub or_else {ℓ} : {A : Type ℓ} → Option A → Option A → Option A
or_else none b = b
or_else (some a) b = some a

abbrev value_at : ℕ → Option (ℕ × Bytes) → Option Bytes
value_at c none = none
value_at c (some (code, value)) = if code == c then some value else none

-- The value of the last option of a list that converts and has code `c`.
unfoldable pub last_value : (Bytes → IpAddr) → ℕ → List DhcpOption → Option Bytes
last_value p c [] = none
last_value p c (opt ∷ rest) =
    or_else (last_value p c rest) (value_at c (convert_option_to_dhcp p opt))

module _ (sql : Sql) (p : Bytes → IpAddr) where
  lookup-apply_options :
      (c : ℕ) (opts : List DhcpOption) (result : Map ℕ Bytes)
      → lookup c (apply_options sql p opts result) ≡ or_else (last_value p c opts) (lookup c result)
  unfolding apply_options last_value
  lookup-apply_options c [] result = refl
  lookup-apply_options c (opt ∷ rest) result = elim (Option-cases (convert_option_to_dhcp p opt)) [
    | inl skipped ↦ ground (arith, lookup-apply_options c rest result)
    | inr ((code, value), converts) ↦ ground (
      arith,
      lookup-apply_options c rest (insert code value result),
      lookup-insert code c value result,
    )
  ]

  -- The options that the database holds for a target; the empty target has none.
  abbrev pub overrides_for : sql.Db → String → String → List DhcpOption
  overrides_for db t k = if k == "" then [] else options_of sql (get_option_override sql db t k)

  lookup-apply_level :
      (t k : String) (s : Store sql) (result : Map ℕ Bytes) (c : ℕ)
      → IsType t
      → IsCoherent sql s
      → (lookup c (apply_level sql p t k (s, result)).1
          ≡ or_else (last_value p c (overrides_for s.db t k)) (lookup c result))
        × IsCoherent sql (apply_level sql p t k (s, result)).0
        × ((apply_level sql p t k (s, result)).0.db ≡ s.db)
  unfolding apply_level last_value
  lookup-apply_level t k s result c a coherent = elim (Bool-cases (k == "")) [
    | inl empty ↦ rw empty (refl, coherent, refl)
    | inr target ↦
        let (same, coherent', db) = cached_get_option_override-IsCoherent sql t k s a coherent in
        rw (target, same) (lookup-apply_options c _ result, coherent', db)
  ]

  -- On a coherent store: the last override of the hardware address that converts, or else that of
  -- the network, or else the configured value. The store stays coherent, and the database as it is.
  pub lookup-apply_option_overrides :
      (options : Map ℕ Bytes) (network_ip hw : String) (s : Store sql) (c : ℕ)
      → IsCoherent sql s
      → (lookup c (apply_option_overrides sql p options network_ip hw s).1
          ≡ or_else (last_value p c (overrides_for s.db "mac" hw)) (
              or_else
                (last_value p c (overrides_for s.db "network" network_ip))
                (lookup c options)))
        × IsCoherent sql (apply_option_overrides sql p options network_ip hw s).0
        × ((apply_option_overrides sql p options network_ip hw s).0.db ≡ s.db)
  unfolding apply_option_overrides
  lookup-apply_option_overrides options network_ip hw s c coherent =
      let (net, coherent', db) =
        lookup-apply_level "network" network_ip s options c (network refl) coherent in
      let s' = (apply_level sql p "network" network_ip (s, options)).0 in
      let result = (apply_level sql p "network" network_ip (s, options)).1 in
      let (val, coherent'', db') = lookup-apply_level "mac" hw s' result c (mac refl) coherent' in
      (
        val ∙ ap₂ (λ d r. or_else (last_value p c (overrides_for d "mac" hw)) r) db net,
        coherent'',
        db' ∙ db,
      )
