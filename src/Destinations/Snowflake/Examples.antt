-- ===== src/Destinations/Snowflake/Examples.antt =====
-- Tests of the migration of Snowflake, and its theorem at a concrete input.
use cloudquery_fork4devin.Base.{
  if◌then◌else◌, ◌≡◌, refl, Bool, true, false, String, [], ◌∷◌, some, All, ◌==◌,
}
use mathlib.Core.Logic.{◌↔◌}
use cloudquery_fork4devin.Destinations.Sdk.{TypeId, Column, Table, int64}
use cloudquery_fork4devin.Destinations.Snowflake.{
  Snowflake, add_primary_key, add_column, find_column, column_changes, added_changes,
  removed_changes, get_table_changes, can_auto_migrate, pk_columns, migrate_keys, migrate_change,
  auto_migrate_table, migrate_table,
}
use cloudquery_fork4devin.Destinations.Snowflake.Unchanged.{
  IsThere, IsWanted, get_table_changes-nothing_iff,
}

abbrev column : String → Bool → Column TypeId
column name key = record {
  name = name;
  type = int64;
  primary_key = key;
  not_null = false;
  unique = false;
}

abbrev upper_case : String → String
upper_case s = if s == "a" then "A" else if s == "id" then "ID" else s

abbrev sf : Snowflake TypeId
sf = record {
  equal_fold = λ s t. upper_case s == upper_case t;
  to_upper = λ s. s;
  type_equal = λ s t. true;
  no_column = column "" false;
  schema_type_to_snowflake = λ t. "number";
  constraint_name = λ t c. "";
  has_constraints = λ t. false;
}

abbrev plain : Table TypeId
plain = record { name = "users"; columns = column "a" false ∷ []; pk_constraint_name = "" }

abbrev keyed : Table TypeId
keyed = record plain { columns = column "a" false ∷ column "id" true ∷ [] }

-- The database has the names in upper case.
abbrev upper : Table TypeId
upper = record plain { columns = column "A" false ∷ column "ID" true ∷ [] }

get_table_changes-nothing_iff_example : (get_table_changes TypeId sf keyed upper ≡ []) ↔ (
    All (IsThere TypeId sf upper.columns) keyed.columns
    × All (IsWanted TypeId sf keyed.columns) upper.columns)
get_table_changes-nothing_iff_example = get_table_changes-nothing_iff TypeId sf keyed upper

nothing_to_do : get_table_changes TypeId sf keyed upper ≡ []
unfolding get_table_changes added_changes removed_changes column_changes find_column
nothing_to_do = refl

-- The primary key is added before its column.
key_before_column :
    (migrate_table TypeId sf (λ log st. true) keyed (some plain) []).0
    ≡ add_primary_key "users" ("id" ∷ []) ∷ add_column "users" (column "id" true) ∷ []
unfolding migrate_table auto_migrate_table migrate_keys migrate_change pk_columns can_auto_migrate
    get_table_changes added_changes removed_changes column_changes find_column
key_before_column = refl
