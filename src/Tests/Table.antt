-- ===== src/Tests/Table.antt =====
-- A simple table for the tests, with the laws that the model of the database asks for.
use standalone_dhcp.Prelude.{
  true, ℕ, ◌≡◌, ◌≢◌, ◌⊎◌, inl, inr, refl, sym, ap, ◌∙◌, Bool, ◌&&◌, Option, none, some, String,
  List, [], ◌∷◌, ◌==◌, nat_eq, string_eq, if◌then◌else◌, arith, Bool-cases,
}
use standalone_dhcp.Prelude.Int.{int_eq, ℤ, pos}
use standalone_dhcp.Net.Laws.{bytes_equal-eq}
use standalone_dhcp.Net.{bytes_equal}
use standalone_dhcp.Convert.{Bytes, DhcpOption}
use standalone_dhcp.Override.{Sql, Row}
use text.Mathlib.TextEquality.{eq_iff}

-- A table is a list of types, targets and texts.
unfoldable pub find : String → String → List (String × String × String) → Option String
find t k [] = none
find t k ((t', k', o) ∷ rest) = if t' == t && k' == k then some o else find t k rest

unfoldable pub remove :
    String → String → List (String × String × String) → List (String × String × String)
remove t k [] = []
remove t k ((t', k', o) ∷ rest) =
    let rest' = remove t k rest in if t' == t && k' == k then rest' else (t', k', o) ∷ rest'

pub find-remove :
    (t k t' k' : String) (rows : List (String × String × String))
    → find t' k' (remove t k rows) ≡ (if t == t' && k == k' then none else find t' k' rows)
unfolding find remove
find-remove t k t' k' [] = ground arith
find-remove t k t' k' ((u, j, o) ∷ rest) = ground (
  arith,
  eq_iff u t,
  eq_iff u t',
  eq_iff t t',
  eq_iff j k,
  eq_iff j k',
  eq_iff k k',
  find-remove t k t' k' rest,
)

abbrev row_of : String → String → Option String → Option Row
row_of t k none = none
row_of t k (some o) =
    some (record { id = 1; type = t; target = k; options = o; created_at = 0; updated_at = 0 })

abbrev rows_of : List (String × String × String) → List Row
rows_of [] = []
rows_of ((t, k, o) ∷ rest) =
    (record { id = 1; type = t; target = k; options = o; created_at = 0; updated_at = 0 })
    ∷ rows_of rest

abbrev pub lab : DhcpOption
lab = record {
  option_code = pos 15;
  option_value = b'l' ∷ b'a' ∷ b'b' ∷ [];
  option_type = "string";
}

abbrev pub office : DhcpOption
office = record { option_code = pos 15; option_value = b'o' ∷ []; option_type = "string" }

-- Three texts are known; the second is that of `lab`.
abbrev is_lab : DhcpOption → Bool
is_lab o =
    o.option_code == pos 15
    && (bytes_equal o.option_value lab.option_value && o.option_type == "string")

abbrev write_options : List DhcpOption → Option String
write_options [] = some "none"
write_options (o ∷ []) = if is_lab o then some "lab" else none
write_options (o ∷ p ∷ os) = none

same_option :
    (a b : ℤ) (v w : Bytes) (t u : String)
    → a ≡ b
    → v ≡ w
    → t ≡ u
    → ◌≡◌ {A = DhcpOption}
        (record { option_code = a; option_value = v; option_type = t })
        (record { option_code = b; option_value = w; option_type = u })
same_option a b v w t u e f g = cc (e, f, g)

is_lab-eq : (o : DhcpOption) → is_lab o ≡ true → o ≡ lab
is_lab-eq o h =
    same_option o.option_code (pos 15) o.option_value lab.option_value o.option_type "string"
      ((int_eq.equal_iff o.option_code (pos 15)).0 (ground (arith, h)))
      (bytes_equal-eq o.option_value lab.option_value (ground (arith, h)))
      ((eq_iff o.option_type "string").0 (ground (arith, h)))

abbrev read_options : String → Option (List DhcpOption)
read_options text =
    if text == "none"
    then some []
    else if text == "lab"
    then some (lab ∷ [])
    else if text == "office"
    then some (office ∷ [])
    else none

abbrev pub count : Option String → ℕ
count none = 0
count (some o) = 1

nothing_there : (o : Option String) → count o ≡ 0 → o ≡ none
nothing_there none e = refl
nothing_there (some x) e = absurd (omega (arith, e))

remove_absent :
    (t k t' k' : String) (rows : List (String × String × String))
    → find t k rows ≡ none
    → find t' k' (remove t k rows) ≡ find t' k' rows
remove_absent t k t' k' rows e = elim (Bool-cases (t == t' && k == k')) [
  | inr other ↦ find-remove t k t' k' rows ∙ rw other refl
  | inl same ↦
      let et : t ≡ t' = ground (arith, eq_iff t t') in
      let ek : k ≡ k' = ground (arith, eq_iff k k') in
      find-remove t k t' k' rows ∙ rw same (sym (rw (← et, ← ek) e))
]

pub delete-find :
    (t k t' k' : String) (rows : List (String × String × String)) (n : ℕ)
    → count (find t k rows) ≡ n
    → (t ≢ t') ⊎ ((k ≢ k') ⊎ (n ≡ 0))
    → find t' k' (remove t k rows) ≡ find t' k' rows
delete-find t k t' k' rows n e (inl h) = find-remove t k t' k' rows ∙ ground (arith, eq_iff t t')
delete-find t k t' k' rows n e (inr (inl h)) =
    find-remove t k t' k' rows ∙ ground (arith, eq_iff k k')
delete-find t k t' k' rows n e (inr (inr h)) =
    remove_absent t k t' k' rows (nothing_there (find t k rows) (e ∙ h))

pub removed_itself :
    (t k : String) (rows : List (String × String × String)) → find t k (remove t k rows) ≡ none
removed_itself t k rows = find-remove t k t k rows ∙ ground (arith, eq_iff t t, eq_iff k k)

pub self-find :
    (t k o : String) (rows : List (String × String × String)) → find t k ((t, k, o) ∷ rows) ≡ some o
unfolding find
self-find t k o rows = ground (arith, eq_iff t t, eq_iff k k)

pub other-find :
    (t k o t' k' : String) (rows : List (String × String × String))
    → (t ≢ t') ⊎ (k ≢ k')
    → find t' k' ((t, k, o) ∷ rows) ≡ find t' k' rows
unfolding find
other-find t k o t' k' rows (inl h) = ground (arith, eq_iff t t')
other-find t k o t' k' rows (inr h) = ground (arith, eq_iff k k')

pub read_options-write_options :
    (options : List DhcpOption) (o : String)
    → write_options options ≡ some o
    → read_options o ≡ some options
read_options-write_options [] o e = let e' : "none" ≡ o = ground arith in rw (← e') refl
read_options-write_options (x ∷ []) o e = elim (Bool-cases (is_lab x)) [
  | inr other ↦ absurd (let e' = rw other at e in ground arith)
  | inl known ↦
      let e' : "lab" ≡ o = let h = rw known at e in ground arith in
      rw (← e', is_lab-eq x known) refl
]
read_options-write_options (x ∷ y ∷ xs) o e = absurd (ground arith)

pub deleted :
    (db db' : List (String × String × String)) (n : ℕ) (t k : String)
    → ◌≡◌ {A = Option (List (String × String × String) × ℕ)}
        (some (remove t k db, count (find t k db)))
        (some (db', n))
    → (remove t k db ≡ db') × (count (find t k db) ≡ n)
deleted db db' n t k e = (ground arith, ground arith)

pub inserted :
    (db db' : List (String × String × String)) (t k o : String)
    → ◌≡◌ {A = Option (List (String × String × String))} (some ((t, k, o) ∷ db)) (some db')
    → (t, k, o) ∷ db ≡ db'
inserted db db' t k o e = ground arith

-- A table in memory, on which no statement fails.
abbrev pub list_sql : Sql
list_sql = record {
  Db = List (String × String × String);
  select_row = λ db t k. some (row_of t k (find t k db));
  upsert = λ db t k o. some ((t, k, o) ∷ db);
  delete_row = λ db t k. some (remove t k db, count (find t k db));
  select_all = λ db t. some (rows_of db);
  marshal = write_options;
  unmarshal = read_options;
  upsert_other = λ db db' t k o t' k' e h.
      let same : (t, k, o) ∷ db ≡ db' = inserted db db' t k o e in
      rw (← same) (ap (λ r. some (row_of t' k' r)) (other-find t k o t' k' db h));
  upsert_self = λ db db' t k o e.
      let same : (t, k, o) ∷ db ≡ db' = inserted db db' t k o e in
      (
        record { id = 1; type = t; target = k; options = o; created_at = 0; updated_at = 0 },
        rw (← same) (ap (λ r. some (row_of t k r)) (self-find t k o db)),
        refl,
      );
  delete_row_other = λ db db' n t k t' k' e h.
      let (same, count) = deleted db db' n t k e in
      rw (← same) (ap (λ r. some (row_of t' k' r)) (delete-find t k t' k' db n count h));
  delete_row_self = λ db db' n t k e.
      let (same, count) = deleted db db' n t k e in
      rw (← same) (ap (λ r. some (row_of t k r)) (removed_itself t k db));
  unmarshal-marshal = read_options-write_options;
}
