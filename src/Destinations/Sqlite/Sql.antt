-- ===== src/Destinations/Sqlite/Sql.antt =====
-- The statement that creates a table in SQLite.
use cloudquery_fork4devin.Base.{
  ◌≡◌, refl, ap, ◌∙◌, false, String, List, [], ◌∷◌, map, append, concat, join, is_empty,
  if◌then◌else◌, ◌==◌,
}
use cloudquery_fork4devin.Destinations.Sdk.{
  TypeId, Column, Sdk, binary, large_binary, int8, int16, int32, int64, uint8, uint16, uint32,
  uint64, float16, float32, float64, bool, timestamp, string, large_string, other_id,
}
use cloudquery_fork4devin.Destinations.Sqlite.{id_to_sqlite_str, arrow_type_to_sqlite_str}
use cloudquery_fork4devin.Destinations.Sqlite.Migrate.{supported, column_definition, columns_sql}

id_to_sqlite_str-some : (i : TypeId) → (id_to_sqlite_str i == "") ≡ false
id_to_sqlite_str-some binary = refl
id_to_sqlite_str-some large_binary = refl
id_to_sqlite_str-some int8 = refl
id_to_sqlite_str-some int16 = refl
id_to_sqlite_str-some int32 = refl
id_to_sqlite_str-some int64 = refl
id_to_sqlite_str-some uint8 = refl
id_to_sqlite_str-some uint16 = refl
id_to_sqlite_str-some uint32 = refl
id_to_sqlite_str-some uint64 = refl
id_to_sqlite_str-some float16 = refl
id_to_sqlite_str-some float32 = refl
id_to_sqlite_str-some float64 = refl
id_to_sqlite_str-some bool = refl
id_to_sqlite_str-some timestamp = refl
id_to_sqlite_str-some string = refl
id_to_sqlite_str-some large_string = refl
id_to_sqlite_str-some other_id = refl

append_nil : (s : String) → append s "" ≡ s
append_nil String.[] = refl
append_nil (String.◌∷◌ c s) = ap (String.◌∷◌ c) (append_nil s)

module _ (k : Sdk) where
  columns_sql-cons :
      (col : Column k.DataType) (cols : List (Column k.DataType))
      → columns_sql k (col ∷ cols)
        ≡ concat (
            column_definition k col ∷ (if is_empty cols then "" else ",") ∷ columns_sql k cols ∷ [])
  unfolding columns_sql arrow_type_to_sqlite_str
  columns_sql-cons col cols = rw (id_to_sqlite_str-some (k.id col.type), supported) refl

  -- The columns of the statement are the definitions of all columns of the table, with a comma between
  -- each two: none is skipped, and no comma is left at the end.
  pub columns_sql-join :
      (cols : List (Column k.DataType))
      → columns_sql k cols ≡ join "," (map (column_definition k) cols)
  unfolding columns_sql
  columns_sql-join [] = refl
  columns_sql-join (col ∷ []) = columns_sql-cons col [] ∙ append_nil (column_definition k col)
  columns_sql-join (col ∷ next ∷ cols) =
      columns_sql-cons col (next ∷ cols)
      ∙ ap (λ s. append (column_definition k col) (append "," s))
          (append_nil (columns_sql k (next ∷ cols)) ∙ columns_sql-join (next ∷ cols))
