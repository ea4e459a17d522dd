-- ===== src/Migrations/Model.antt =====
-- app/models/user.py against the table that the migrations make.
use mathlib.Core.List.{reverse}
use api_gateway_with_abuse_d.Prelude.{
  String, ◌≡◌, refl, subst, true, false, inl, inr, Bool-cases, Option, none, some, [], ◌∷◌, ◌==◌,
  eq_iff, if◌then◌else◌,
}
use api_gateway_with_abuse_d.Dependencies.{role_user}
use api_gateway_with_abuse_d.Migrations.{
  Table, Column, Ddl, with_column, find_column, string, boolean, date_time,
}
use api_gateway_with_abuse_d.Migrations.Versions.{
  initial_schema, add_role_column, initial_users, role_column, plain_column, migrate,
}

abbrev with_default : String → Column → Column
with_default text c = record c { server_default = some text }

-- class User: mapped_column is not nullable where the annotation is not optional.
abbrev pub user_model : Table
user_model = record {
  columns =
      plain_column "id" (string none)
      ∷ plain_column "username" (string (some 50))
      ∷ plain_column "email" (string (some 255))
      ∷ plain_column "hashed_password" (string (some 255))
      ∷ with_default "true" (plain_column "is_active" boolean)
      ∷ with_default role_user (plain_column "role" (string (some 20)))
      ∷ with_default "now()" (plain_column "created_at" (date_time true))
      ∷ [];
  primary_key = "id" ∷ [];
  uniques = ("username" ∷ []) ∷ ("email" ∷ []) ∷ [];
}

-- A column of the model as the migrations make it: `is_active` has no default in the database.
abbrev pub migrated_column : String → Option Column
migrated_column n =
    if "is_active" == n
    then some (plain_column "is_active" boolean)
    else find_column n user_model.columns

abbrev Agrees : String → Type 0
Agrees n = find_column n (with_column role_column initial_users).columns ≡ migrated_column n

at_name : (m n : String) → (m == n) ≡ true → Agrees m → Agrees n
at_name m n e h = subst Agrees ((eq_iff m n).0 e) h

find_column-migrated : (n : String) → Agrees n
unfolding find_column
find_column-migrated n = elim (Bool-cases ("is_active" == n)) [
  | inl e ↦ at_name "is_active" n e refl
  | inr active ↦ elim (Bool-cases ("role" == n)) [
    | inl e ↦ at_name "role" n e refl
    | inr role ↦ elim (Bool-cases ("created_at" == n)) [
      | inl e ↦ at_name "created_at" n e refl
      | inr created ↦ simp (active, role, created)
    ]
  ]
]

-- An upgrade along the branch of e5e33863a297 and df814258c022, on a schema without a table `users`,
-- returns; the table that it makes has the columns of the model, whatever their order, but for the
-- default of is_active, which the database does not have, and the model's key and uniqueness.
pub upgrade-matches_model :
    (ddl : Ddl) (s : ddl.Schema)
    → ddl.table "users" s ≡ none
    → (s' : ddl.Schema) × (d : Table) × (migrate ddl false (initial_schema ∷ add_role_column ∷ []) s
        ≡ (true, s'))
      × (ddl.table "users" s' ≡ some d)
      × ((n : String) → find_column n d.columns ≡ migrated_column n)
      × (d.primary_key ≡ user_model.primary_key)
      × (d.uniques ≡ reverse user_model.uniques)
unfolding migrate find_column
upgrade-matches_model ddl s missing =
    let (s1, created, tables) = ddl.create-new "users" initial_users s missing in
    let (s2, added, tables') = ddl.add-new "users" role_column s1 (tables "users") refl in
    (
      s2,
      with_column role_column initial_users,
      rw (created, added) refl,
      tables' "users",
      find_column-migrated,
      refl,
      refl,
    )
