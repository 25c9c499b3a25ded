-- ===== src/Destinations/Sqlite/Examples.antt =====
-- Tests of the migration of SQLite, and its theorems at concrete inputs.
use cloudquery_fork4devin.Base.{
  here, ◌≡◌, refl, true, false, String, List, [], ◌∷◌, Option, none, some, lookup, insert, ◌==◌,
  if◌then◌else◌,
}
use cloudquery_fork4devin.Destinations.Sdk.{Table, large_string, TypeId, Database, int8, int64}
use cloudquery_fork4devin.Destinations.Sample.{
  users, sdk, sdk-SdkLaws, id_column, name_column, msgs,
}
use cloudquery_fork4devin.Destinations.Sqlite.{
  columns_of, ColumnInfo, Statement, sqlite_type_to_arrow_type, arrow_type_to_sqlite_str,
  arrow_type_to_sqlite,
}
use cloudquery_fork4devin.Destinations.Sqlite.Migrate.{
  sqlite_tables, add_table, normalize_tables, normalize_table, normalize_field, columns_sql,
  column_definition, can_auto_migrate, migrate_tables,
}
use cloudquery_fork4devin.Destinations.Sqlite.Types.{
  sqlite_type_to_arrow_type-arrow_type_to_sqlite_str,
}
use cloudquery_fork4devin.Destinations.Sqlite.Sql.{columns_sql-join}
use cloudquery_fork4devin.Destinations.Sqlite.Refused.{migrate_tables-refused}

abbrev text_info : String → ColumnInfo
text_info name = record { name = name; typ = "text"; not_null = false; pk = 0 }

-- The database's `users` has one column.
abbrev query : String → Option (List ColumnInfo)
query name = if name == "users" then some (text_info "id" ∷ []) else none

abbrev old_users : Table TypeId
old_users = record {
  name = "users";
  columns =
      record {
        name = "id";
        type = large_string;
        primary_key = false;
        not_null = false;
        unique = false;
      }
      ∷ [];
  pk_constraint_name = "";
}

abbrev takes_all : Database (Statement sdk)
takes_all log st = true

sqlite_type_to_arrow_type-arrow_type_to_sqlite_str_example :
    sqlite_type_to_arrow_type sdk (arrow_type_to_sqlite_str sdk (arrow_type_to_sqlite sdk int8))
    ≡ some int64
unfolding arrow_type_to_sqlite
sqlite_type_to_arrow_type-arrow_type_to_sqlite_str_example =
    sqlite_type_to_arrow_type-arrow_type_to_sqlite_str sdk sdk-SdkLaws int8

columns_sql-join_example :
    columns_sql sdk (id_column ∷ name_column ∷ []) ≡ "\"id\" integer,\"name\" text"
unfolding column_definition arrow_type_to_sqlite_str
columns_sql-join_example = columns_sql-join sdk (id_column ∷ name_column ∷ [])

-- `orders`, which is not in the database, is not made either.
migrate_tables-refused_example : migrate_tables sdk takes_all query msgs [] ≡ ([], false)
unfolding lookup insert sqlite_tables add_table columns_of sqlite_type_to_arrow_type
    normalize_tables normalize_table normalize_field arrow_type_to_sqlite can_auto_migrate
migrate_tables-refused_example =
    migrate_tables-refused sdk takes_all query msgs (old_users ∷ []) (normalize_table sdk users)
      old_users [] refl here refl refl refl
