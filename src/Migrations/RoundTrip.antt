-- ===== src/Migrations/RoundTrip.antt =====
-- migrations/versions: a downgrade undoes its upgrade.
use api_gateway_with_abuse_d.Prelude.{
  String, ◌≡◌, refl, sym, ap, subst, ◌∙◌, inl, inr, false, not, Option, none, some, List, [], ◌∷◌,
  ◌++◌, ◌==◌, eq_iff, eq_refl, All, Option-cases, Bool-cases, keep, if◌then◌else◌,
}
use api_gateway_with_abuse_d.Migrations.{
  Table, Column, Ddl, with_column, without_column, find_column, names, is_other,
}
use api_gateway_with_abuse_d.Migrations.Versions.{
  Revision, create_users_table, initial_schema, add_role_column, merge_heads, merge_heads_again,
  first_users, initial_users, role_column, upgrade, downgrade,
}

-- No constraint of the table names a column.
abbrev pub IsFree : String → Table → Type 0
IsFree n t = (names n t.primary_key ≡ false) × All (λ u. names n u ≡ false) t.uniques

none≢some : {A : Type 0} {a : A} → none ≡ some a → ⊥
none≢some h = cc

some_injective : {A : Type 0} {a b : A} → some a ≡ some b → a ≡ b
some_injective h = cc

find_column-last :
    (c : Column) (cs : List Column)
    → find_column c.name cs ≡ none
    → find_column c.name (cs ++ c ∷ []) ≡ some c
unfolding find_column
find_column-last c [] h = rw eq_refl refl
find_column-last c (d ∷ cs) h = elim (Bool-cases (d.name == c.name)) [
  | inl same ↦ absurd (none≢some (sym (rw same at h)))
  | inr other ↦ rw other (find_column-last c cs (rw other at h))
]

keep-last :
    (c : Column) (cs : List Column)
    → find_column c.name cs ≡ none
    → keep (is_other c.name) (cs ++ c ∷ []) ≡ cs
unfolding find_column
keep-last c [] h = rw eq_refl refl
keep-last c (d ∷ cs) h = elim (Bool-cases (d.name == c.name)) [
  | inl same ↦ absurd (none≢some (sym (rw same at h)))
  | inr other ↦ rw other (ap (λ ds. d ∷ ds) (keep-last c cs (rw other at h)))
]

keep-free :
    (n : String) (us : List (List String))
    → All (λ u. names n u ≡ false) us
    → keep (λ u. not (names n u)) us ≡ us
keep-free n [] h = refl
keep-free n (u ∷ us) (free, rest) = rw free (ap (λ vs. u ∷ vs) (keep-free n us rest))

without_column-with_column :
    (c : Column) (t : Table)
    → find_column c.name t.columns ≡ none
    → IsFree c.name t
    → without_column c.name (with_column c t) ≡ t
without_column-with_column c t absent (free, all_free) =
    simp (keep-last c t.columns absent, free, keep-free c.name t.uniques all_free)

module _ (ddl : Ddl) where
  -- The same tables as in another schema.
  abbrev pub SameTables : ddl.Schema → ddl.Schema → Type 0
  SameTables s t = (j : String) → ddl.table j s ≡ ddl.table j t

  restored :
      (t j : String) (s : ddl.Schema) (new middle : Option Table)
      → middle ≡ (if t == j then new else ddl.table j s)
      → (if t == j then ddl.table t s else middle) ≡ ddl.table j s
  restored t j s new middle e = elim (Bool-cases (t == j)) [
    | inl same ↦ rw (same, (eq_iff t j).0 same) refl
    | inr other ↦ rw other (e ∙ rw other refl)
  ]

  drop_table-create_table :
      (t : String) (new : Table) (s s' : ddl.Schema)
      → ddl.create_table t new s ≡ some s'
      → (s'' : ddl.Schema) × (ddl.drop_table t s' ≡ some s'') × SameTables s'' s
  drop_table-create_table t new s s' h = elim (Option-cases (ddl.table t s)) [
    | inr (d, there) ↦ absurd (none≢some (sym (ddl.create-exists t new s there) ∙ h))
    | inl missing ↦
        let (s1, created, tables) = ddl.create-new t new s missing in
        let same : s1 ≡ s' = some_injective (sym created ∙ h) in
        let tables' =
          subst (λ x. (j : String) → ddl.table j x ≡ (if t == j then some new else ddl.table j s))
            same tables in
        let (s2, dropped, rest) = ddl.drop-exists t s' {old = new} (tables' t ∙ rw eq_refl refl) in
        (
          s2,
          dropped,
          λ j. rest j ∙ rw (← missing) (restored t j s (some new) (ddl.table j s') (tables' j)),
        )
  ]

  drop_column-add_column :
      (t : String) (c : Column) (s s' : ddl.Schema)
      → ddl.add_column t c s ≡ some s'
      → ((d : Table) → ddl.table t s ≡ some d → IsFree c.name d)
      → (s'' : ddl.Schema) × (ddl.drop_column t c.name s' ≡ some s'') × SameTables s'' s
  drop_column-add_column t c s s' h free = elim (Option-cases (ddl.table t s)) [
    | inl missing ↦ absurd (none≢some (sym (ddl.add-missing t c s missing) ∙ h))
    | inr (d, there) ↦ elim (Option-cases (find_column c.name d.columns)) [
      | inr (c', double) ↦ absurd (none≢some (sym (ddl.add-exists t c s there double) ∙ h))
      | inl absent ↦
          let (s1, added, tables) = ddl.add-new t c s there absent in
          let same : s1 ≡ s' = some_injective (sym added ∙ h) in
          let tables' =
            subst
              (λ x.
                (j : String)
                → ddl.table j x ≡ (if t == j then some (with_column c d) else ddl.table j s))
              same tables in
          let (s2, dropped, rest) =
            ddl.drop_column-exists t c.name s' {old = with_column c d} {d = c}
              (tables' t ∙ rw eq_refl refl) (find_column-last c d.columns absent) in
          let undone : some (without_column c.name (with_column c d)) ≡ ddl.table t s =
            ap some (without_column-with_column c d absent (free d there)) ∙ sym there in
          (
            s2,
            dropped,
            λ j.
                rest j
                ∙ rw undone (restored t j s (some (with_column c d)) (ddl.table j s') (tables' j)),
          )
    ]
  ]

-- Where a revision's upgrade does not raise, its downgrade does not either, and every table is as it
-- was before the upgrade. The table `users` is supposed to have no constraint on a column `role`.
pub downgrade-upgrade :
    (ddl : Ddl) (r : Revision) (s s' : ddl.Schema)
    → ((d : Table) → ddl.table "users" s ≡ some d → IsFree "role" d)
    → upgrade ddl r s ≡ some s'
    → (s'' : ddl.Schema) × (downgrade ddl r s' ≡ some s'') × SameTables ddl s'' s
downgrade-upgrade ddl create_users_table s s' free h =
    drop_table-create_table ddl "users" first_users s s' h
downgrade-upgrade ddl initial_schema s s' free h =
    drop_table-create_table ddl "users" initial_users s s' h
downgrade-upgrade ddl add_role_column s s' free h =
    drop_column-add_column ddl "users" role_column s s' h free
downgrade-upgrade ddl merge_heads s s' free h =
    (s', refl, λ j. ap (ddl.table j) (sym (some_injective h)))
downgrade-upgrade ddl merge_heads_again s s' free h =
    (s', refl, λ j. ap (ddl.table j) (sym (some_injective h)))
