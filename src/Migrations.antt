-- ===== src/Migrations.antt =====
-- migrations: the schema that the revisions build. Alembic and PostgreSQL are parameters of the
-- model: a schema with the documented effects of the operations that the revisions call, and the
-- order in which Alembic runs the revisions, each behind those that it revises.
pub mod Reference
pub mod Versions
pub mod Heads
pub mod RoundTrip
pub mod Model
use api_gateway_with_abuse_d.Prelude.{
  ℕ, String, ◌≡◌, Bool, true, false, not, ◌||◌, Option, none, some, List, [], ◌∷◌, ◌++◌, ◌==◌,
  if◌then◌else◌, keep,
}

-- sa.String(length), sa.Boolean(), sa.DateTime(timezone)
pub data ColumnType : Type 0 where
  string : (length : Option ℕ) → ColumnType
  boolean : ColumnType
  date_time : (timezone : Bool) → ColumnType

-- sa.Column
pub record Column : Type 0 where
  pub name : String
  pub type : ColumnType
  pub server_default : Option String
  pub nullable : Bool

-- A table, with its sa.PrimaryKeyConstraint and its sa.UniqueConstraints.
pub record Table : Type 0 where
  pub columns : List Column
  pub primary_key : List String
  pub uniques : List (List String)

unfoldable pub find_column : String → List Column → Option Column
find_column n [] = none
find_column n (c ∷ cs) = if c.name == n then some c else find_column n cs

abbrev pub names : String → List String → Bool
names n [] = false
names n (m ∷ ms) = m == n || names n ms

abbrev pub is_other : String → Column → Bool
is_other n c = not (c.name == n)

-- ALTER TABLE ADD COLUMN; and DROP COLUMN, which drops the constraints that name the column.
abbrev pub with_column : Column → Table → Table
with_column c t = record t { columns = t.columns ++ c ∷ [] }

abbrev pub without_column : String → Table → Table
without_column n t = record {
  columns = keep (is_other n) t.columns;
  primary_key = if names n t.primary_key then [] else t.primary_key;
  uniques = keep (λ u. not (names n u)) t.uniques;
}

-- The operations of alembic.op on a schema of PostgreSQL: `none` where the statement raises.
pub record Ddl : Type 1 where
  pub Schema : Type 0
  pub table : String → Schema → Option Table
  pub create_table : String → Table → Schema → Option Schema
  pub drop_table : String → Schema → Option Schema
  pub add_column : String → Column → Schema → Option Schema
  pub drop_column : String → String → Schema → Option Schema
  pub create-exists :
      (t : String) (new : Table) (s : Schema) {old : Table}
      → table t s ≡ some old
      → create_table t new s ≡ none
  pub create-new :
      (t : String) (new : Table) (s : Schema)
      → table t s ≡ none
      → (s' : Schema) × (create_table t new s ≡ some s')
        × ((j : String) → table j s' ≡ (if t == j then some new else table j s))
  pub drop-exists :
      (t : String) (s : Schema) {old : Table}
      → table t s ≡ some old
      → (s' : Schema) × (drop_table t s ≡ some s')
        × ((j : String) → table j s' ≡ (if t == j then none else table j s))
  pub add-missing :
      (t : String) (c : Column) (s : Schema) → table t s ≡ none → add_column t c s ≡ none
  pub add-exists :
      (t : String) (c : Column) (s : Schema) {old : Table} {d : Column}
      → table t s ≡ some old
      → find_column c.name old.columns ≡ some d
      → add_column t c s ≡ none
  pub add-new :
      (t : String) (c : Column) (s : Schema) {old : Table}
      → table t s ≡ some old
      → find_column c.name old.columns ≡ none
      → (s' : Schema) × (add_column t c s ≡ some s')
        × ((j : String) → table j s' ≡ (if t == j then some (with_column c old) else table j s))
  pub drop_column-exists :
      (t n : String) (s : Schema) {old : Table} {d : Column}
      → table t s ≡ some old
      → find_column n old.columns ≡ some d
      → (s' : Schema) × (drop_column t n s ≡ some s')
        × ((j : String) → table j s' ≡ (if t == j then some (without_column n old) else table j s))
