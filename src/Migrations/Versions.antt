-- ===== src/Migrations/Versions.antt =====
-- migrations/versions, and do_run_migrations of migrations/env.py.
use api_gateway_with_abuse_d.Prelude.{
  String, Bool, true, false, Option, none, some, List, [], ◌∷◌, if◌then◌else◌,
}
use api_gateway_with_abuse_d.Migrations.{ColumnType, string, boolean, date_time, Column, Table, Ddl}

pub data Revision : Type 0 where
  create_users_table initial_schema add_role_column merge_heads merge_heads_again : Revision

-- `revision`
abbrev pub revision : Revision → String
revision create_users_table = "4d6b8b0f3f62"
revision initial_schema = "e5e33863a297"
revision add_role_column = "df814258c022"
revision merge_heads = "1130f7259f8a"
revision merge_heads_again = "cb354bae0bfe"

-- `down_revision`
abbrev pub down_revision : Revision → List Revision
down_revision create_users_table = []
down_revision initial_schema = []
down_revision add_role_column = initial_schema ∷ []
down_revision merge_heads = create_users_table ∷ add_role_column ∷ []
down_revision merge_heads_again = merge_heads ∷ []

abbrev pub plain_column : String → ColumnType → Column
plain_column name type = record {
  name = name;
  type = type;
  server_default = none;
  nullable = false;
}

-- The columns up to `is_active`, with which both revisions that create the table begin.
abbrev pub first_columns : Column → List Column
first_columns created_at =
    plain_column "id" (string none)
    ∷ plain_column "username" (string (some 50))
    ∷ plain_column "email" (string (some 255))
    ∷ plain_column "hashed_password" (string (some 255))
    ∷ plain_column "is_active" boolean
    ∷ created_at
    ∷ []

abbrev pub keyed : List Column → Table
keyed columns = record {
  columns = columns;
  primary_key = "id" ∷ [];
  uniques = ("email" ∷ []) ∷ ("username" ∷ []) ∷ [];
}

-- op.create_table of 4d6b8b0f3f62, and of e5e33863a297
abbrev pub first_users : Table
first_users = keyed (first_columns (plain_column "created_at" (date_time false)))

abbrev pub initial_users : Table
initial_users = keyed (
    first_columns (record {
      name = "created_at";
      type = date_time true;
      server_default = some "now()";
      nullable = false;
    }))

-- op.add_column of df814258c022
abbrev pub role_column : Column
role_column = record {
  name = "role";
  type = string (some 20);
  server_default = some "user";
  nullable = false;
}

module _ (ddl : Ddl) where
  -- 4d6b8b0f3f62_create_users_table.py
  abbrev pub upgrade_create_users_table : ddl.Schema → Option ddl.Schema
  upgrade_create_users_table s = ddl.create_table "users" first_users s

  abbrev pub downgrade_create_users_table : ddl.Schema → Option ddl.Schema
  downgrade_create_users_table s = ddl.drop_table "users" s

  -- e5e33863a297_initial_schema.py
  abbrev pub upgrade_initial_schema : ddl.Schema → Option ddl.Schema
  upgrade_initial_schema s = ddl.create_table "users" initial_users s

  abbrev pub downgrade_initial_schema : ddl.Schema → Option ddl.Schema
  downgrade_initial_schema s = ddl.drop_table "users" s

  -- df814258c022_add_role_column_to_users.py
  abbrev pub upgrade_add_role_column : ddl.Schema → Option ddl.Schema
  upgrade_add_role_column s = ddl.add_column "users" role_column s

  abbrev pub downgrade_add_role_column : ddl.Schema → Option ddl.Schema
  downgrade_add_role_column s = ddl.drop_column "users" "role" s

  -- 1130f7259f8a_merge_heads.py and cb354bae0bfe_merge_heads.py do nothing.
  abbrev pub upgrade : Revision → ddl.Schema → Option ddl.Schema
  upgrade create_users_table s = upgrade_create_users_table s
  upgrade initial_schema s = upgrade_initial_schema s
  upgrade add_role_column s = upgrade_add_role_column s
  upgrade merge_heads s = some s
  upgrade merge_heads_again s = some s

  abbrev pub downgrade : Revision → ddl.Schema → Option ddl.Schema
  downgrade create_users_table s = downgrade_create_users_table s
  downgrade initial_schema s = downgrade_initial_schema s
  downgrade add_role_column s = downgrade_add_role_column s
  downgrade merge_heads s = some s
  downgrade merge_heads_again s = some s

  abbrev pub and_then : Option ddl.Schema → (ddl.Schema → Option ddl.Schema) → Option ddl.Schema
  and_then none f = none
  and_then (some s) f = f s

  -- context.run_migrations() of an upgrade, over the revisions that Alembic has put in order.
  unfoldable pub run_migrations : List Revision → ddl.Schema → Option ddl.Schema
  run_migrations [] s = some s
  run_migrations (r ∷ rs) s = and_then (upgrade r s) (run_migrations rs)

  -- `with context.begin_transaction()`: the schema is what the migrations made, or as it was before;
  -- and whether an exception leaves the block.
  abbrev pub transaction : Option ddl.Schema → ddl.Schema → Bool × ddl.Schema
  transaction none s = (false, s)
  transaction (some s') s = (true, s')

  unfoldable pub do_run_migrations : List Revision → ddl.Schema → Bool × ddl.Schema
  unfolding run_migrations
  do_run_migrations order s = transaction (run_migrations order s) s

  -- Offline, Alembic writes the statements of the revisions to a script, and no database is asked.
  abbrev pub run_migrations_offline : List Revision → ddl.Schema → Bool × ddl.Schema
  run_migrations_offline order s = (true, s)

  -- The connection is opened, runs do_run_migrations, and is disposed of.
  abbrev pub run_migrations_online : List Revision → ddl.Schema → Bool × ddl.Schema
  unfolding do_run_migrations
  run_migrations_online order s = do_run_migrations order s

  -- The module's last lines.
  unfoldable pub migrate : Bool → List Revision → ddl.Schema → Bool × ddl.Schema
  unfolding do_run_migrations
  migrate is_offline_mode order s =
      if is_offline_mode then run_migrations_offline order s else run_migrations_online order s
