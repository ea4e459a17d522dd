-- ===== src/Tests/Schema.antt =====
-- Examples for the migrations.
use mathlib.Core.List.{Memᴰ, reverse}
use api_gateway_with_abuse_d.Prelude.{
  String, ◌==◌, if◌then◌else◌, subst, ◌≡◌, refl, true, false, Option, none, some, List, [], ◌∷◌,
}
use api_gateway_with_abuse_d.Migrations.{Table, find_column, with_column}
use api_gateway_with_abuse_d.Migrations.Reference.{tables}
use api_gateway_with_abuse_d.Migrations.Versions.{
  Revision, create_users_table, initial_schema, add_role_column, merge_heads, merge_heads_again,
  initial_users, role_column, downgrade, migrate,
}
use api_gateway_with_abuse_d.Migrations.Heads.{upgrade-head_fails}
use api_gateway_with_abuse_d.Migrations.RoundTrip.{downgrade-upgrade, SameTables, IsFree}
use api_gateway_with_abuse_d.Migrations.Model.{upgrade-matches_model, migrated_column, user_model}

abbrev no_tables : String → Option Table
no_tables name = none

abbrev all_revisions : List Revision
all_revisions =
    initial_schema ∷ add_role_column ∷ create_users_table ∷ merge_heads ∷ merge_heads_again ∷ []

upgrade-head_fails_example : migrate tables false all_revisions no_tables ≡ (false, no_tables)
upgrade-head_fails_example =
    upgrade-head_fails tables all_revisions no_tables
      (
        tt,
        (
          (Memᴰ.head refl, tt),
          (tt, ((Memᴰ.head refl, (Memᴰ.tail (Memᴰ.head refl), tt)), ((Memᴰ.head refl, tt), tt))),
        ),
      )
      (Memᴰ.tail (Memᴰ.tail (Memᴰ.tail (Memᴰ.tail (Memᴰ.head refl)))))

upgrade-matches_model_example :
    (s' : tables.Schema) × (d : Table) × (migrate tables false
        (initial_schema ∷ add_role_column ∷ [])
        no_tables
      ≡ (true, s'))
    × (tables.table "users" s' ≡ some d)
    × ((n : String) → find_column n d.columns ≡ migrated_column n)
    × (d.primary_key ≡ user_model.primary_key)
    × (d.uniques ≡ reverse user_model.uniques)
upgrade-matches_model_example = upgrade-matches_model tables no_tables refl

abbrev initial_tables : tables.Schema
initial_tables = λ name. if "users" == name then some initial_users else none

abbrev role_tables : tables.Schema
role_tables = λ name.
    if "users" == name then some (with_column role_column initial_users) else initial_tables name

initial-IsFree : (d : Table) → tables.table "users" initial_tables ≡ some d → IsFree "role" d
initial-IsFree d h =
    let same : initial_users ≡ d = cc in subst (IsFree "role") same (refl, (refl, (refl, tt)))

downgrade-upgrade_example :
    (s'' : tables.Schema) × (downgrade tables add_role_column role_tables ≡ some s'')
    × SameTables tables s'' initial_tables
unfolding find_column
downgrade-upgrade_example =
    downgrade-upgrade tables add_role_column initial_tables role_tables initial-IsFree refl
