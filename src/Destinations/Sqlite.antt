-- ===== src/Destinations/Sqlite.antt =====
-- plugins/destination/sqlite/client: migrate.go and types.go.
pub mod Migrate
pub mod Types
pub mod Refused
pub mod Sql
mod Examples
use cloudquery_fork4devin.Base.{
  ℕ, num_eq, Bool, false, not, String, List, [], ◌∷◌, Option, none, some, concat, and_then,
  if◌then◌else◌, ◌==◌,
}
use cloudquery_fork4devin.Destinations.Sdk.{
  TypeId, Column, Table, Sdk, binary, large_binary, int8, int16, int32, int64, uint8, uint16,
  uint32, uint64, float16, float32, float64, bool, timestamp,
}

-- A row of `PRAGMA table_info`, with the type in lower case.
pub record ColumnInfo : Type 0 where
  pub name : String
  pub typ : String
  pub not_null : Bool
  pub pk : ℕ

-- `identifier`
abbrev pub identifier : String → String
identifier s = concat ("\"" ∷ s ∷ "\"" ∷ [])

-- `arrowTypeToSqliteStr`, by the identifier of the type
abbrev pub id_to_sqlite_str : TypeId → String
id_to_sqlite_str binary = "blob"
id_to_sqlite_str large_binary = "blob"
id_to_sqlite_str int8 = "integer"
id_to_sqlite_str int16 = "integer"
id_to_sqlite_str int32 = "integer"
id_to_sqlite_str int64 = "integer"
id_to_sqlite_str uint8 = "integer"
id_to_sqlite_str uint16 = "integer"
id_to_sqlite_str uint32 = "integer"
id_to_sqlite_str uint64 = "integer"
id_to_sqlite_str float16 = "real"
id_to_sqlite_str float32 = "real"
id_to_sqlite_str float64 = "real"
id_to_sqlite_str bool = "boolean"
id_to_sqlite_str timestamp = "timestamp"
id_to_sqlite_str _ = "text"

module _ (k : Sdk) where
  -- A database's statement, as SQL below.
  pub data Statement : Type 0 where
    create_table : (table : Table k.DataType) → Statement
    drop_table : (name : String) → Statement
    add_column : (table column type : String) → Statement

  unfoldable pub arrow_type_to_sqlite_str : k.DataType → String
  arrow_type_to_sqlite_str t = id_to_sqlite_str (k.id t)

  abbrev pub id_to_sqlite : TypeId → k.DataType
  id_to_sqlite int8 = k.int64_type
  id_to_sqlite int16 = k.int64_type
  id_to_sqlite int32 = k.int64_type
  id_to_sqlite int64 = k.int64_type
  id_to_sqlite uint8 = k.int64_type
  id_to_sqlite uint16 = k.int64_type
  id_to_sqlite uint32 = k.int64_type
  id_to_sqlite uint64 = k.int64_type
  id_to_sqlite float16 = k.float64_type
  id_to_sqlite float32 = k.float64_type
  id_to_sqlite float64 = k.float64_type
  id_to_sqlite bool = k.boolean_type
  id_to_sqlite timestamp = k.timestamp_us_type
  id_to_sqlite _ = k.large_string_type

  -- `arrowTypeToSqlite`
  unfoldable pub arrow_type_to_sqlite : k.DataType → k.DataType
  arrow_type_to_sqlite t = id_to_sqlite (k.id t)

  -- `sqliteTypeToArrowType`; `none` is its panic.
  unfoldable pub sqlite_type_to_arrow_type : String → Option k.DataType
  sqlite_type_to_arrow_type t =
      if t == "integer"
      then some k.int64_type
      else if t == "real"
      then some k.float64_type
      else if t == "text"
      then some k.large_string_type
      else if t == "blob"
      then some k.large_binary_type
      else if t == "boolean"
      then some k.boolean_type
      else if t == "timestamp"
      then some k.timestamp_us_type
      else none

  -- The columns of a table in the database, as `sqliteTables` makes them.
  unfoldable pub columns_of : List ColumnInfo → Option (List (Column k.DataType))
  unfolding sqlite_type_to_arrow_type
  columns_of [] = some []
  columns_of (info ∷ infos) =
      let rest = columns_of infos in
      and_then (sqlite_type_to_arrow_type info.typ) λ type. and_then rest λ cols. some (
        record {
          name = info.name;
          type = type;
          primary_key = not (num_eq info.pk 0);
          not_null = info.not_null;
          unique = false;
        }
        ∷ cols)
