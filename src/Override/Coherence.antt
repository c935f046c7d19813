-- ===== src/Override/Coherence.antt =====
-- database.go: the cache mirrors the table.
use standalone_dhcp.Prelude.{
  ℕ, ◌≡◌, ◌≢◌, ◌⊎◌, inl, inr, refl, sym, ap, ◌∙◌, Option, some, String, List, ◌==◌, nat_eq,
  string_eq, arith, nat_beq_iff, Bool-cases, Option-cases,
}
use standalone_dhcp.Prelude.Map.{lookup, insert, delete, insert_cases, delete_cases}
use standalone_dhcp.Override.{
  OptionOverride, Result, ok, err, Sql, Store, override_cache_key, get_option_override,
  cached_get_option_override, save_option_override, delete_option_override, init_database, remember,
  of_row, invalidate_override_cache,
}
use standalone_dhcp.Convert.{DhcpOption}
use Prim.Native.String.{◌++◌}
use mathlib.Core.Path.{ap₂}
use text.Mathlib.TextEquality.{eq_iff}
use Prim.Native.Char.{code}
use text.Mathlib.TextLemmas.{append_cancel_left, cons-append}

-- The program uses these two types of overrides.
pub data IsType (t : String) : Type 0 where
  network : t ≡ "network" → IsType t
  mac : t ≡ "mac" → IsType t

-- The first character tells the types apart.
abbrev first_code : String → ℕ
first_code String.[] = 0
first_code (String.◌∷◌ c s) = code c

key_apart : (k k' : String) → override_cache_key "network" k ≢ override_cache_key "mac" k'
key_apart k k' e =
    let n : first_code (override_cache_key "network" k) ≡ b'n' =
      ap first_code (cons-append "n" "etwork" ("\0" ++ k)) in
    let m : first_code (override_cache_key "mac" k') ≡ b'm' =
      ap first_code (cons-append "m" "ac" ("\0" ++ k')) in
    absurd (omega (arith, n, m, ap first_code e))

cancel : (t k k' : String) → override_cache_key t k ≡ override_cache_key t k' → k ≡ k'
cancel t k k' e = append_cancel_left "\0" k k' (append_cancel_left t _ _ e)

-- With these types the key tells type and target.
override_cache_key-injective :
    (t t' k k' : String)
    → IsType t
    → IsType t'
    → override_cache_key t k ≡ override_cache_key t' k'
    → (t ≡ t') × (k ≡ k')
override_cache_key-injective t t' k k' (network p) (network q) e =
    (p ∙ sym q, cancel "network" k k' (rw (p, q) at e))
override_cache_key-injective t t' k k' (network p) (mac q) e =
    absurd (key_apart k k' (rw (p, q) at e))
override_cache_key-injective t t' k k' (mac p) (network q) e =
    absurd (key_apart k' k (sym (rw (p, q) at e)))
override_cache_key-injective t t' k k' (mac p) (mac q) e =
    (p ∙ sym q, cancel "mac" k k' (rw (p, q) at e))

keys_apart :
    (t t' k k' : String) → override_cache_key t k ≢ override_cache_key t' k' → (t ≢ t') ⊎ (k ≢ k')
keys_apart t t' k k' h = elim (Bool-cases (t == t')) [
  | inr other ↦ inl (λ e. ground (arith, eq_iff t t'))
  | inl same ↦ inr (λ e. h (ap₂ override_cache_key ((eq_iff t t').0 same) e))
]

module _ (sql : Sql) where
  -- What the cache holds is what the database answers.
  pub record IsCoherent (s : Store sql) : Type 0 where
    pub mirrors :
        (t k : String) (v : Option OptionOverride)
        → IsType t
        → lookup (override_cache_key t k) s.cache ≡ some v
        → get_option_override sql s.db t k ≡ ok v

  pub init_database-IsCoherent : (db : sql.Db) → IsCoherent (init_database sql db)
  unfolding lookup
  init_database-IsCoherent db = record { mirrors = λ t k v a h. absurd (cc) }

  remember-IsCoherent :
      (t k : String) (s : Store sql) (r : Result (Option OptionOverride))
      → IsType t
      → IsCoherent s
      → get_option_override sql s.db t k ≡ r
      → ((remember sql (override_cache_key t k) s r).1 ≡ r)
        × IsCoherent (remember sql (override_cache_key t k) s r).0
        × ((remember sql (override_cache_key t k) s r).0.db ≡ s.db)
  unfolding remember
  remember-IsCoherent t k s (err x) a c e = (refl, c, refl)
  remember-IsCoherent t k s (ok v) a c e = (refl, record { mirrors = mirrors }, refl)
    where
      mirrors :
          (t' k' : String) (v' : Option OptionOverride)
          → IsType t'
          → lookup (override_cache_key t' k') (insert (override_cache_key t k) v s.cache) ≡ some v'
          → get_option_override sql s.db t' k' ≡ ok v'
      mirrors t' k' v' a' h =
          elim (insert_cases (override_cache_key t k) (override_cache_key t' k') v v' s.cache h) [
            | inl (same, w) ↦
                let (p, q) = override_cache_key-injective t t' k k' a a' same in
                rw (← p, ← q, e) (ap (λ x. ok x) w)
            | inr old ↦ c.mirrors t' k' v' a' old
          ]

  -- A read through the cache answers as the database does, and keeps the cache coherent.
  pub cached_get_option_override-IsCoherent :
      (t k : String) (s : Store sql)
      → IsType t
      → IsCoherent s
      → ((cached_get_option_override sql t k s).1 ≡ get_option_override sql s.db t k)
        × IsCoherent (cached_get_option_override sql t k s).0
        × ((cached_get_option_override sql t k s).0.db ≡ s.db)
  unfolding cached_get_option_override
  cached_get_option_override-IsCoherent t k s a c =
      elim (Option-cases (lookup (override_cache_key t k) s.cache)) [
        | inr (v, hit) ↦ rw (hit, cached_get_option_override) (sym (c.mirrors t k v a hit), c, refl)
        | inl miss ↦
            rw (miss, cached_get_option_override)
              (remember-IsCoherent t k s (get_option_override sql s.db t k) a c refl)
      ]

  -- After a write to `(t, k)` that leaves the other rows alone, the cache without that key mirrors.
  invalidate-IsCoherent :
      (t k : String) (s : Store sql) (db' : sql.Db)
      → IsCoherent s
      → ((t' k' : String)
          → (t ≢ t') ⊎ (k ≢ k')
          → get_option_override sql db' t' k' ≡ get_option_override sql s.db t' k')
      → IsCoherent (invalidate_override_cache sql t k (record s { db = db' }))
  unfolding invalidate_override_cache
  invalidate-IsCoherent t k s db' c keeps = record { mirrors = mirrors }
    where
      mirrors :
          (t' k' : String) (v : Option OptionOverride)
          → IsType t'
          → lookup (override_cache_key t' k') (delete (override_cache_key t k) s.cache) ≡ some v
          → get_option_override sql db' t' k' ≡ ok v
      mirrors t' k' v a h =
          let (other, old) =
            delete_cases (override_cache_key t k) (override_cache_key t' k') v s.cache h in
          keeps t' k' (keys_apart t t' k k' other) ∙ c.mirrors t' k' v a old

  pub save_option_override-IsCoherent :
      (t k : String) (options : List DhcpOption) (s : Store sql)
      → IsCoherent s
      → IsCoherent (save_option_override sql t k options s).0
  unfolding save_option_override get_option_override
  save_option_override-IsCoherent t k options s c = elim (Option-cases (sql.marshal options)) [
    | inl failed ↦ rw (failed, save_option_override) c
    | inr (text, marshalled) ↦ elim (Option-cases (sql.upsert s.db t k text)) [
      | inl failed ↦ rw (marshalled, failed, save_option_override) c
      | inr (db', done) ↦
          rw (marshalled, done, save_option_override)
            (invalidate-IsCoherent t k s db' c λ t' k' apart.
              ap (λ r. of_row sql r) (sql.upsert_other s.db db' t k text t' k' done apart))
    ]
  ]

  delete_option_override-IsCoherent :
      (t k : String) (s : Store sql)
      → IsCoherent s
      → IsCoherent (delete_option_override sql t k s).0
  unfolding delete_option_override get_option_override
  delete_option_override-IsCoherent t k s c = elim (Option-cases (sql.delete_row s.db t k)) [
    | inl failed ↦ rw (failed, delete_option_override) c
    | inr ((db', n), done) ↦ elim (Bool-cases (n == 0)) [
      | inl nothing ↦
          rw (done, nothing, delete_option_override)
            (record {
              mirrors = λ t' k' v a h.
                  ap (λ r. of_row sql r)
                    (sql.delete_row_other s.db db' n t k t' k' done
                      (inr (inr ((nat_beq_iff n 0).0 nothing))))
                  ∙ c.mirrors t' k' v a h;
            })
      | inr some_rows ↦
          rw (done, some_rows, delete_option_override)
            (invalidate-IsCoherent t k s db' c λ t' k' apart.
              ap (λ r. of_row sql r) (sql.delete_row_other s.db db' n t k t' k' done (other apart)))
    ]
  ]
    where
      other : {t' k' : String} {n : ℕ} → (t ≢ t') ⊎ (k ≢ k') → (t ≢ t') ⊎ ((k ≢ k') ⊎ (n ≡ 0))
      other (inl p) = inl p
      other (inr q) = inr (inl q)

  -- One request at a time: a write through the API, or a read of the packet path.
  pub data Step (s : Store sql) : Store sql → Type 0 where
    saves :
        (t k : String) (options : List DhcpOption)
        → Step s (save_option_override sql t k options s).0
    deletes : (t k : String) → Step s (delete_option_override sql t k s).0
    reads : (t k : String) → IsType t → Step s (cached_get_option_override sql t k s).0

  pub data Reach (s : Store sql) : Store sql → Type 0 where
    here : Reach s s
    next : {u v : Store sql} → Reach s u → Step u v → Reach s v

  Step-IsCoherent : {s u : Store sql} → Step s u → IsCoherent s → IsCoherent u
  Step-IsCoherent {s} (saves t k options) c = save_option_override-IsCoherent t k options s c
  Step-IsCoherent {s} (deletes t k) c = delete_option_override-IsCoherent t k s c
  Step-IsCoherent {s} (reads t k a) c = (cached_get_option_override-IsCoherent t k s a c).1

  Reach-IsCoherent : {s u : Store sql} → IsCoherent s → Reach s u → IsCoherent u
  Reach-IsCoherent c here = c
  Reach-IsCoherent c (next r st) = Step-IsCoherent st (Reach-IsCoherent c r)

  -- After any sequence of reads and writes, one at a time, on an opened database, a read through
  -- the cache for a network or a hardware address answers what the database answers.
  pub cached_get_option_override-refines :
      (db : sql.Db) {s : Store sql} (t k : String)
      → Reach (init_database sql db) s
      → IsType t
      → (cached_get_option_override sql t k s).1 ≡ get_option_override sql s.db t k
  cached_get_option_override-refines db {s} t k r a =
      (cached_get_option_override-IsCoherent t k s a
        (Reach-IsCoherent (init_database-IsCoherent db) r)).0
