-- ===== src/Destinations/Postgres/Sql.antt =====
-- plugins/destination/postgresql/client/migrate.go: the text of the statements, and the names of
-- columns and indexes, whose lengths are in bytes.
use Prim.Native.Char.{nul, len_utf8}
use cloudquery_fork4devin.Base.{
  ℕ, zero, suc, ◌+◌, ◌-◌, code, num_eq, ltb, ◌&&◌, ◌||◌, not, String, List, [], ◌∷◌, map, Option,
  none, some, Dict, lookup, append, concat, join, is_empty, if◌then◌else◌,
}
use cloudquery_fork4devin.Destinations.Sdk.{Column, Table}
use cloudquery_fork4devin.Destinations.Postgres.{
  Postgres, is_cockroach_db, is_crate_db, PkConstraintDetails, Statement, create_extension,
  create_table, drop_table, add_column, drop_constraint, add_primary_key, drop_not_null,
  drop_unique, create_vector_table, create_index, begin, commit, rollback, deallocate_all,
}

-- `len(s)`, in bytes
abbrev pub byte_size : String → ℕ
byte_size String.[] = 0
byte_size (String.◌∷◌ c s) = len_utf8 c + byte_size s

abbrev pub nuls : ℕ → String
nuls zero = ""
nuls (suc n) = String.◌∷◌ nul (nuls n)

-- `s[:n]`, of bytes. Where it cuts a character, the bytes that are left of that are no character, and
-- each of them is written as a NUL here.
abbrev pub first_bytes : ℕ → String → String
first_bytes n String.[] = ""
first_bytes n (String.◌∷◌ c s) =
    let rest = first_bytes (n - len_utf8 c) s in
    if ltb n (len_utf8 c) then nuls n else String.◌∷◌ c rest

-- `strings.TrimLeft(s, "_")`
abbrev pub trim_underscores : String → String
trim_underscores String.[] = ""
trim_underscores (String.◌∷◌ c s) =
    let rest = trim_underscores s in if num_eq (code c) 95 then rest else String.◌∷◌ c s

abbrev pub cq_id : String
cq_id = "_cq_id"

-- The name as Postgres truncates it.
unfoldable pub truncated : String → String
truncated s = if ltb 63 (byte_size s) then first_bytes 63 s else s

module _ (T : Type 0) (pg : Postgres T) where
  -- `hashTableName`
  unfoldable pub hash_table_name : String → String
  unfolding truncated
  hash_table_name input = first_bytes 32 (pg.sha256_hex (truncated input))

  unfoldable pub performance_index_name : String → String
  unfolding hash_table_name
  performance_index_name table =
      if ltb 58 (byte_size table) && not (is_cockroach_db pg.pg_type)
      then append (hash_table_name table) "_cqpi"
      else append table "_cqpi"

  unfoldable pub vector_index_name : String → String
  unfolding hash_table_name
  vector_index_name target =
      let name = append target "_cqid_idx" in
      if ltb 63 (byte_size name) then append (hash_table_name target) "_cqid_idx" else name

  unfoldable pub normalize_column : Column T → Column T
  unfolding truncated
  normalize_column col = record {
    name = truncated (if is_crate_db pg.pg_type then trim_underscores col.name else col.name);
    type = pg.pg_to_schema_type (pg.schema_type_to_pg col.type);
    primary_key = col.primary_key;
    not_null = col.not_null || col.primary_key;
    unique = col.unique && not (is_crate_db pg.pg_type);
  }

  abbrev constraint_name : Option PkConstraintDetails → String
  constraint_name none = ""
  constraint_name (some d) = d.name

  -- `normalizeTable`. The name of the constraint is set in the loop over the columns.
  unfoldable pub normalize_table : Dict PkConstraintDetails → Table T → Table T
  unfolding normalize_column
  normalize_table constraints table = record {
    name = table.name;
    columns = map normalize_column table.columns;
    pk_constraint_name =
        if is_empty table.columns then "" else constraint_name (lookup table.name constraints);
  }

  unfoldable pub column_definition : Column T → String
  column_definition col = concat (
      pg.sanitize col.name
      ∷ " "
      ∷ pg.schema_type_to_pg col.type
      ∷ (if col.unique then " UNIQUE" else "")
      ∷ (if col.not_null then " NOT NULL" else "")
      ∷ [])

  unfoldable pub columns_sql : List (Column T) → String
  unfolding column_definition
  columns_sql [] = ""
  columns_sql (col ∷ cols) =
      concat (column_definition col ∷ (if is_empty cols then "" else ",") ∷ columns_sql cols ∷ [])

  unfoldable pub primary_keys : List (Column T) → List String
  primary_keys [] = []
  primary_keys (col ∷ cols) =
      let rest = primary_keys cols in if col.primary_key then col.name ∷ rest else rest

  -- The text of `createTableIfNotExist`.
  unfoldable pub create_table_sql : Table T → String
  unfolding columns_sql primary_keys
  create_table_sql table =
      let keys = map pg.sanitize (primary_keys table.columns) in
      concat (
        "CREATE TABLE IF NOT EXISTS "
        ∷ pg.sanitize table.name
        ∷ " ("
        ∷ columns_sql table.columns
        ∷ (if is_empty keys then "" else concat (", PRIMARY KEY (" ∷ join "," keys ∷ ")" ∷ []))
        ∷ ")"
        ∷ [])

  -- The text of a statement; those of transactions are pgx's.
  unfoldable pub sql : Statement T → String
  unfolding create_table_sql
  sql create_extension = "CREATE EXTENSION IF NOT EXISTS vector"
  sql (create_table table) = create_table_sql table
  sql (drop_table name) = append "drop table " name
  sql (add_column table column type) =
      concat ("alter table " ∷ table ∷ " add column " ∷ pg.sanitize column ∷ " " ∷ type ∷ [])
  sql (drop_constraint table name) =
      concat ("ALTER TABLE " ∷ pg.sanitize table ∷ " DROP CONSTRAINT " ∷ name ∷ [])
  sql (add_primary_key table name) = concat (
      "ALTER TABLE "
      ∷ pg.sanitize table
      ∷ " ADD CONSTRAINT "
      ∷ name
      ∷ " PRIMARY KEY ("
      ∷ pg.sanitize cq_id
      ∷ ")"
      ∷ [])
  sql (drop_not_null table column) = concat (
      "ALTER TABLE "
      ∷ pg.sanitize table
      ∷ " ALTER COLUMN "
      ∷ pg.sanitize column
      ∷ " DROP NOT NULL"
      ∷ [])
  sql (drop_unique table index) =
      if is_cockroach_db pg.pg_type
      then concat ("DROP INDEX " ∷ pg.sanitize index ∷ " CASCADE" ∷ [])
      else concat
          ("ALTER TABLE " ∷ pg.sanitize table ∷ " DROP CONSTRAINT " ∷ pg.sanitize index ∷ [])
  sql (create_vector_table target definitions) =
      concat (
        "CREATE TABLE IF NOT EXISTS " ∷ pg.sanitize target ∷ " (" ∷ join "," definitions ∷ ")" ∷ [])
  sql (create_index name table columns) = concat (
      "CREATE INDEX IF NOT EXISTS "
      ∷ pg.sanitize name
      ∷ " ON "
      ∷ pg.sanitize table
      ∷ "("
      ∷ join ", " (map pg.sanitize columns)
      ∷ ")"
      ∷ [])
  sql begin = "begin"
  sql commit = "commit"
  sql rollback = "rollback"
  sql deallocate_all = "deallocate all"
