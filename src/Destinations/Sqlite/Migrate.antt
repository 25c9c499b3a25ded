-- ===== src/Destinations/Sqlite/Migrate.antt =====
-- plugins/destination/sqlite/client/migrate.go: the migration.
use cloudquery_fork4devin.Base.{
  Bool, true, false, ◌&&◌, ◌||◌, not, String, List, [], ◌∷◌, ◌++◌, map, Option, none, some, Dict,
  insert, lookup, concat, and_then, join, is_empty, if◌then◌else◌, ◌==◌,
}
use cloudquery_fork4devin.Arrow.{Field}
use cloudquery_fork4devin.Destinations.Sdk.{
  Database, ChangeType, Column, Table, Change, MigrateTable, Sdk, add, remove,
  remove_unique_constraint,
}
use cloudquery_fork4devin.Destinations.Run.{Run, or_fail, checked, done, ◌⟫◌, for_each}
use cloudquery_fork4devin.Destinations.Sqlite.{
  ColumnInfo, Statement, create_table, drop_table, add_column, identifier, arrow_type_to_sqlite,
  arrow_type_to_sqlite_str, columns_of,
}

module _ (k : Sdk) where
  abbrev T : Type 0
  T = k.DataType

  abbrev pub supported : Column T → Bool
  supported col = not (arrow_type_to_sqlite_str k col.type == "")

  -- The columns of `CREATE TABLE`.
  unfoldable pub column_definition : Column T → String
  unfolding arrow_type_to_sqlite_str
  column_definition col = concat (
      identifier col.name
      ∷ " "
      ∷ arrow_type_to_sqlite_str k col.type
      ∷ (if col.not_null then " NOT NULL" else "")
      ∷ [])

  unfoldable pub columns_sql : List (Column T) → String
  unfolding column_definition
  columns_sql [] = ""
  columns_sql (col ∷ cols) =
      let rest = columns_sql cols in
      if supported col
      then concat (column_definition col ∷ (if is_empty cols then "" else ",") ∷ rest ∷ [])
      else rest

  unfoldable pub primary_keys : List (Column T) → List String
  primary_keys [] = []
  primary_keys (col ∷ cols) =
      let rest = primary_keys cols in
      if supported col && col.primary_key then identifier col.name ∷ rest else rest

  -- `createTableIfNotExist`
  unfoldable pub create_table_sql : Table T → String
  unfolding columns_sql primary_keys
  create_table_sql table =
      let keys = primary_keys table.columns in
      concat (
        "CREATE TABLE IF NOT EXISTS "
        ∷ identifier table.name
        ∷ " ("
        ∷ columns_sql table.columns
        ∷ (if is_empty keys
            then ""
            else concat (
                ", CONSTRAINT "
                ∷ identifier (concat (table.name ∷ "_cqpk" ∷ []))
                ∷ " PRIMARY KEY ("
                ∷ join "," keys
                ∷ ")"
                ∷ []))
        ∷ ")"
        ∷ [])

  -- The text of a statement.
  unfoldable pub sql : Statement k → String
  unfolding create_table_sql
  sql (create_table table) = create_table_sql table
  sql (drop_table name) = concat ("drop table if exists " ∷ identifier name ∷ [])
  sql (add_column table column type) = concat (
      "alter table "
      ∷ identifier table
      ∷ " add column "
      ∷ identifier column
      ∷ " "
      ∷ identifier type
      ∷ [])

  -- `normalizeField`
  unfoldable pub normalize_field : Field T k.Metadata → Field T k.Metadata
  unfolding arrow_type_to_sqlite
  normalize_field f = record f { type = arrow_type_to_sqlite k f.type }

  -- `normalizeTable`
  unfoldable pub normalize_table : Table T → Table T
  unfolding normalize_field
  normalize_table table = record {
    name = table.name;
    pk_constraint_name = "";
    columns =
        map (λ col. k.new_column_from_arrow_field (normalize_field (k.to_arrow_field col)))
          table.columns;
  }

  -- `normalizeTables`
  unfoldable pub normalize_tables : List (Table T) → List (Table T)
  unfolding normalize_table
  normalize_tables tables = map normalize_table (k.flatten_tables tables)

  -- A table of the database. `query` is `PRAGMA table_info`, where `none` is an error, which is
  -- taken for a table that is not there; no columns are no table. `none` is a panic.
  unfoldable pub add_table :
      String → Option (List ColumnInfo) → List (Table T) → Option (List (Table T))
  unfolding columns_of
  add_table name none rest = some rest
  add_table name (some []) rest = some rest
  add_table name (some (info ∷ infos)) rest =
      and_then (columns_of k (info ∷ infos))
        λ columns. some (record { name = name; columns = columns; pk_constraint_name = "" } ∷ rest)

  -- `sqliteTables`
  unfoldable pub sqlite_tables :
      (String → Option (List ColumnInfo)) → List (Table T) → Option (List (Table T))
  unfolding add_table
  sqlite_tables query [] = some []
  sqlite_tables query (table ∷ tables) =
      and_then (sqlite_tables query tables) λ rest. add_table table.name (query table.name) rest

  -- `canAutoMigrate`
  abbrev pub can_auto_migrate_change : Change T → ChangeType → Bool
  can_auto_migrate_change c add = not (c.current.primary_key || c.current.not_null)
  can_auto_migrate_change c remove = not (c.previous.primary_key || c.previous.not_null)
  can_auto_migrate_change c remove_unique_constraint = true
  can_auto_migrate_change c _ = false

  unfoldable pub can_auto_migrate : List (Change T) → Bool
  can_auto_migrate [] = true
  can_auto_migrate (c ∷ cs) = can_auto_migrate_change c c.type && can_auto_migrate cs

  abbrev pub is_safe : Dict Bool → String → Bool
  is_safe safe_tables name = elim (lookup name safe_tables) [ none ↦ false | some b ↦ b ]

  -- Whether the table cannot be migrated and is not to be forced, by what the database has.
  unfoldable pub refuses : Dict Bool → Table T → Option (Table T) → Bool
  unfolding can_auto_migrate
  refuses safe_tables t none = false
  refuses safe_tables t (some existing) =
      is_safe safe_tables t.name && not (can_auto_migrate (k.get_changes existing t))

  -- `nonAutoMigratableTables`, whether there are any
  unfoldable pub non_auto_migratable_tables :
      List (Table T) → List (Table T) → Dict Bool → List String
  unfolding refuses
  non_auto_migratable_tables [] existing safe_tables = []
  non_auto_migratable_tables (t ∷ ts) existing safe_tables =
      let rest = non_auto_migratable_tables ts existing safe_tables in
      if refuses safe_tables t (k.get existing t.name) then t.name ∷ rest else rest

  abbrev pub safe_tables_of : List (MigrateTable T) → Dict Bool → Dict Bool
  safe_tables_of [] safe_tables = safe_tables
  safe_tables_of (m ∷ ms) safe_tables =
      safe_tables_of ms (insert m.table.name (not m.migrate_force) safe_tables)

  module _ (db : Database (Statement k)) where
    -- The statements that the database is given, in order.
    abbrev pub exec : Statement k → Run (List (Statement k))
    exec st log = (log ++ st ∷ [], db log st)

    -- `autoMigrateTable`
    abbrev pub auto_migrate_change : Table T → Change T → ChangeType → Run (List (Statement k))
    auto_migrate_change table c add =
        exec (add_column table.name c.current.name (arrow_type_to_sqlite_str k c.current.type))
    auto_migrate_change table c _ = done

    unfoldable pub auto_migrate_table : Table T → List (Change T) → Run (List (Statement k))
    auto_migrate_table table = for_each λ c. auto_migrate_change table c c.type

    -- `recreateTable`
    unfoldable pub recreate_table : Table T → Run (List (Statement k))
    recreate_table table = exec (drop_table table.name) ⟫ exec (create_table table)

    unfoldable pub migrate_existing : Table T → Option (Table T) → Run (List (Statement k))
    unfolding can_auto_migrate auto_migrate_table recreate_table
    migrate_existing table none = exec (create_table table)
    migrate_existing table (some existing) =
        let changes = k.get_changes table existing in
        if can_auto_migrate changes then auto_migrate_table table changes else recreate_table table

    unfoldable pub migrate_table : List (Table T) → Table T → Run (List (Statement k))
    unfolding migrate_existing
    migrate_table existing table =
        if is_empty table.columns then done else migrate_existing table (k.get existing table.name)

    -- `MigrateTables`
    unfoldable pub migrate_tables :
        (String → Option (List ColumnInfo)) → List (MigrateTable T) → Run (List (Statement k))
    unfolding normalize_tables sqlite_tables non_auto_migratable_tables migrate_table
    migrate_tables query msgs =
        let tables = normalize_tables (map (λ m. m.table) msgs) in
        or_fail (sqlite_tables query tables) λ existing.
          checked (non_auto_migratable_tables tables existing (safe_tables_of msgs []))
            (for_each (migrate_table existing) tables)
