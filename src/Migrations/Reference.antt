-- ===== src/Migrations/Reference.antt =====
-- A schema as a function from names to tables: the laws can hold.
use api_gateway_with_abuse_d.Prelude.{String, refl, Option, none, some, ◌==◌, if◌then◌else◌}
use api_gateway_with_abuse_d.Migrations.{
  Table, Column, Ddl, with_column, without_column, find_column,
}

abbrev Tables : Type 0
Tables = String → Option Table

abbrev put : String → Option Table → Tables → Tables
put t d s = λ j. if t == j then d else s j

abbrev create : Option Table → String → Table → Tables → Option Tables
create none t new s = some (put t (some new) s)
create (some old) t new s = none

abbrev drop : Option Table → String → Tables → Option Tables
drop none t s = none
drop (some old) t s = some (put t none s)

abbrev add_new : Option Column → String → Column → Table → Tables → Option Tables
add_new none t c old s = some (put t (some (with_column c old)) s)
add_new (some d) t c old s = none

abbrev add : Option Table → String → Column → Tables → Option Tables
add none t c s = none
add (some old) t c s = add_new (find_column c.name old.columns) t c old s

abbrev remove_old : Option Column → String → String → Table → Tables → Option Tables
remove_old none t n old s = none
remove_old (some d) t n old s = some (put t (some (without_column n old)) s)

abbrev remove : Option Table → String → String → Tables → Option Tables
remove none t n s = none
remove (some old) t n s = remove_old (find_column n old.columns) t n old s

abbrev pub tables : Ddl
tables = record {
  Schema = Tables;
  table = λ t s. s t;
  create_table = λ t new s. create (s t) t new s;
  drop_table = λ t s. drop (s t) t s;
  add_column = λ t c s. add (s t) t c s;
  drop_column = λ t n s. remove (s t) t n s;
  create-exists = λ t new s there. rw there;
  create-new = λ t new s missing. (put t (some new) s, rw missing, λ j. refl);
  drop-exists = λ t s there. (put t none s, rw there, λ j. refl);
  add-missing = λ t c s missing. rw missing;
  add-exists = λ t c s there double. rw (there, double);
  add-new = λ t c s {old = old} there absent.
      (put t (some (with_column c old)) s, rw (there, absent), λ j. refl);
  drop_column-exists = λ t n s {old = old} there found.
      (put t (some (without_column n old)) s, rw (there, found), λ j. refl);
}
