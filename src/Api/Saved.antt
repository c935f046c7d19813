-- ===== src/Api/Saved.antt =====
-- api.go: what is posted is shown again, and used by the packet path.
use standalone_dhcp.Prelude.{
  ℕ, ◌<◌, ◌≤◌, true, false, ◌||◌, ◌≡◌, inl, inr, refl, ap, ◌∙◌, Option, none, some, String, List,
  [], ◌∷◌, ◌==◌, nat_eq, string_eq, length, Bool-cases, Option-cases, arith, All,
}
use standalone_dhcp.Prelude.Int.{ℤ, pos, negsuc, ltb_ℤ}
use standalone_dhcp.Convert.{DhcpOption}
use standalone_dhcp.Override.{
  Sql, Store, OptionOverride, Row, Result, ok, err, get_option_override, save_option_override,
  invalidate_override_cache,
}
use standalone_dhcp.Api.{
  Reply, refuses, saved, removed, listed, shown, are_valid, saved_reply,
  handle_override_network_options,
}

-- A valid option: a code of one byte and a value.
abbrev pub IsValid : DhcpOption → Type 0
IsValid o = (n : ℕ) × (o.option_code ≡ pos n) × (n ≤ 255) × (0 < length o.option_value)

code-cases :
    (c : ℤ) → (ltb_ℤ c (pos 0) || ltb_ℤ (pos 255) c) ≡ false → (n : ℕ) × (c ≡ pos n) × (n ≤ 255)
code-cases (pos n) h = (n, refl, ground arith)
code-cases (negsuc n) h = absurd (ground arith)

IsValid-cases :
    (o : DhcpOption)
    → (ltb_ℤ o.option_code (pos 0) || ltb_ℤ (pos 255) o.option_code) ≡ false
    → (length o.option_value == 0) ≡ false
    → IsValid o
IsValid-cases o h k = let (n, e, small) = code-cases o.option_code h in (n, e, small, ground arith)

are_valid-IsValid : (options : List DhcpOption) → are_valid options ≡ true → All IsValid options
unfolding are_valid
are_valid-IsValid [] h = tt
are_valid-IsValid (o ∷ rest) h =
    elim (Bool-cases (ltb_ℤ o.option_code (pos 0) || ltb_ℤ (pos 255) o.option_code)) [
      | inl wide ↦ absurd (let h' = rw wide at h in ground arith)
      | inr fits ↦ elim (Bool-cases (length o.option_value == 0)) [
        | inl nothing ↦ absurd (let h' = rw (fits, nothing) at h in ground arith)
        | inr full ↦ (IsValid-cases o fits full, are_valid-IsValid rest (rw (fits, full) at h))
      ]
    ]

module _ (sql : Sql) where
  -- What the database shows after a save.
  abbrev IsSaved :
      String → String → List DhcpOption → Store sql → Store sql × Result (Unit {0}) → Type 0
  IsSaved t k options s (s', ok done) =
      (o : OptionOverride) × (get_option_override sql s'.db t k ≡ ok (some o))
      × (o.options ≡ options)
  IsSaved t k options s (s', err e) = s' ≡ s

  saved_row :
      (t k : String) (options : List DhcpOption) (text : String) (r : Row) (db : sql.Db)
      → sql.marshal options ≡ some text
      → sql.select_row db t k ≡ some (some r)
      → r.options ≡ text
      → (o : OptionOverride) × (get_option_override sql db t k ≡ ok (some o))
        × (o.options ≡ options)
  unfolding get_option_override
  saved_row t k options text r db m e same =
      let read : sql.unmarshal r.options ≡ some options =
        ap sql.unmarshal same ∙ sql.unmarshal-marshal options text m in
      rw (e, read) (_, refl, refl)

  save-IsSaved :
      (t k : String) (options : List DhcpOption) (s : Store sql)
      → IsSaved t k options s (save_option_override sql t k options s)
  unfolding save_option_override invalidate_override_cache
  save-IsSaved t k options s = elim (Option-cases (sql.marshal options)) [
    | inl bad ↦ rw (bad, save_option_override) refl
    | inr (text, m) ↦ elim (Option-cases (sql.upsert s.db t k text)) [
      | inl failed ↦ rw (m, failed, save_option_override) refl
      | inr (db', done) ↦
          let (r, row, same) = sql.upsert_self s.db db' t k text done in
          rw (m, done, save_option_override) (saved_row t k options text r db' m row same)
    ]
  ]

  -- What a post leaves: what is saved is valid and in the database, and a refusal changes nothing.
  abbrev pub IsPosted : String → String → Store sql → Reply × Store sql → Type 0
  IsPosted t k s (saved k' options, s') =
      (k' ≡ k)
      × All IsValid options
      × ((o : OptionOverride) × (get_option_override sql s'.db t k ≡ ok (some o))
          × (o.options ≡ options))
  IsPosted t k s (refuses n, s') = s' ≡ s
  IsPosted t k s (removed k', s') = ⊥
  IsPosted t k s (listed n l, s') = ⊥
  IsPosted t k s (shown o, s') = ⊥

  reply-IsPosted :
      (t k : String) (options : List DhcpOption) (s : Store sql) (r : Store sql × Result (Unit {0}))
      → All IsValid options
      → IsSaved t k options s r
      → IsPosted t k s (saved_reply sql k options r)
  reply-IsPosted t k options s (s', ok done) v h = (refl, v, h)
  reply-IsPosted t k options s (s', err e) v h = h

  -- A post of options for a network saves them, valid, under the network, where the database then
  -- has them, or it is refused and changes nothing.
  pub handle_override_network_options-IsPosted :
      (network : String) (body : Option (List DhcpOption)) (s : Store sql)
      → IsPosted "network" network s (handle_override_network_options sql network body s)
  unfolding handle_override_network_options
  handle_override_network_options-IsPosted network none s = refl
  handle_override_network_options-IsPosted network (some options) s =
      elim (Bool-cases (are_valid options)) [
        | inr bad ↦ rw bad refl
        | inl good ↦ rw good (
            reply-IsPosted "network" network options s
              (save_option_override sql "network" network options s)
              (are_valid-IsValid options good) (save-IsSaved "network" network options s))
      ]
