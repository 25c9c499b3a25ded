-- ===== src/Destinations/Postgres/Examples.antt =====
-- Tests of the migration of Postgres, and its theorems at concrete inputs.
use cloudquery_fork4devin.Base.{
  if◌then◌else◌, ◌==◌, ◌≡◌, refl, ℕ, Bool, true, false, String, [], ◌∷◌, none, some, All, concat,
  lookup, insert,
}
use cloudquery_fork4devin.Destinations.Sdk.{TypeId, large_string}
use cloudquery_fork4devin.Destinations.Sample.{sdk, orders, msgs}
use cloudquery_fork4devin.Destinations.Postgres.{
  Postgres, PgState, ColumnRow, postgre_sql, create_table, drop_table, deallocate_all,
  list_tables_from, add_to_last, column_of, add_details,
}
use cloudquery_fork4devin.Destinations.Postgres.Kept.{drops}
use cloudquery_fork4devin.Destinations.Postgres.Safe.{migrate_table_batch-safe}
use cloudquery_fork4devin.Destinations.Postgres.Migrate.{
  migrate_table_batch, ensure_pg_vector_extension_installed, list_and_migrate, migrate_listed,
  migrate_table, migrate_existing, recreate_table, auto_migrate_table, create_table_if_not_exist,
  create_pg_vector_table_if_not_exists, create_performance_indexes,
}
use cloudquery_fork4devin.Destinations.Postgres.Changes.{
  tables_from_messages, non_auto_migratable_tables, refuses, can_auto_migrate,
  can_auto_migrate_from,
}
use cloudquery_fork4devin.Destinations.Postgres.Sql.{
  byte_size, first_bytes, normalize_table, truncated, normalize_column,
}

abbrev row : ℕ → String → String → ColumnRow
row position table column = record {
  ordinal_position = position;
  table_name = table;
  column_name = column;
  column_type = "text";
  is_primary_key = false;
  not_null = false;
  pk_name = "";
  is_unique = false;
  unique_name = "";
}

abbrev pg : Postgres TypeId
pg = record {
  pg_type = postgre_sql;
  create_performance_indexes = true;
  pg_vector_config = none;
  sanitize = λ s. concat ("\"" ∷ s ∷ "\"" ∷ []);
  sha256_hex = λ s. "9f86d081884c7d659a2feaa0c55ad015a3bf4f1b2b0b822cd15d6c15b0f00a08";
  schema_type_to_pg = λ t. "text";
  pg_to_schema_type = λ s. large_string;
  select_tables =
      λ log. some (row 1 "users" "id" ∷ row 2 "users" "name" ∷ row 1 "orders" "id" ∷ []);
  pk_name = λ log table. some "pk";
  exec = λ log st. true;
}

abbrev same_type : TypeId → TypeId → Bool
same_type s t = true

abbrev start : PgState TypeId
start = record { log = []; pk_constraints = []; pg_vector_extension_installed = false }

-- Lower case, of one name.
abbrev fold : String → String
fold s = if s == "Users" then "users" else s

migrate_table_batch-safe_example :
    All
      (λ st. drops sdk same_type pg fold "users" st ≡ false)
      (migrate_table_batch sdk same_type pg msgs start).0.log
unfolding lookup insert
migrate_table_batch-safe_example =
    migrate_table_batch-safe sdk same_type pg fold "users" msgs start (refl, (refl, tt)) refl tt

-- `users` is as it is in the database; `orders` is made anew.
only_orders :
    (migrate_table_batch sdk same_type pg msgs start).0.log
    ≡ drop_table "orders" ∷ create_table (normalize_table TypeId pg [] orders) ∷ deallocate_all ∷ []
unfolding lookup insert migrate_table_batch ensure_pg_vector_extension_installed list_and_migrate
    migrate_listed list_tables_from add_to_last column_of add_details normalize_table
    normalize_column truncated tables_from_messages non_auto_migratable_tables refuses
    can_auto_migrate can_auto_migrate_from migrate_table migrate_existing recreate_table
    auto_migrate_table create_table_if_not_exist create_pg_vector_table_if_not_exists
    create_performance_indexes
only_orders = refl

-- A forced table whose name has a capital takes another one with it, that is not to be forced.
capital_drops : drops sdk same_type pg fold "users" (drop_table "Users") ≡ true
capital_drops = refl

abbrev two_euros : String
two_euros = "€€"

-- A cut is made in the middle of a character.
cut : byte_size (first_bytes 4 two_euros) ≡ 4
cut = refl
