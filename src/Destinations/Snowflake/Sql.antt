-- ===== src/Destinations/Snowflake/Sql.antt =====
-- plugins/destination/snowflake/client/migrate.go: the text of the statements.
use cloudquery_fork4devin.Base.{String, List, [], ◌∷◌, map, concat, join, is_empty, if◌then◌else◌}
use cloudquery_fork4devin.Destinations.Sdk.{Column, Table}
use cloudquery_fork4devin.Destinations.Snowflake.{
  Statement, drop_primary_key, add_primary_key, drop_unique, add_column, drop_not_null,
  create_table, drop_table, Snowflake, unique_constraint_name, pk_name, pk_columns,
}

module _ (T : Type 0) (sf : Snowflake T) where
  -- `sanitizeColumn`
  abbrev pub sanitize_column : String → String
  sanitize_column name = concat ("\"" ∷ sf.to_upper name ∷ "\"" ∷ [])

  -- ` constraint … unique`
  abbrev unique_sql : String → Column T → String
  unique_sql table c =
      if c.unique
      then concat
          (" constraint " ∷ sanitize_column (unique_constraint_name table c.name) ∷ " unique" ∷ [])
      else ""

  unfoldable pub column_definition : String → Column T → String
  column_definition table c = concat (
      sanitize_column c.name
      ∷ " "
      ∷ sf.schema_type_to_snowflake c.type
      ∷ (if c.not_null then " not null" else "")
      ∷ unique_sql table c
      ∷ [])

  unfoldable pub columns_sql : String → List (Column T) → String
  unfolding column_definition
  columns_sql table [] = ""
  columns_sql table (c ∷ cs) =
      concat
        (column_definition table c ∷ (if is_empty cs then "" else ",") ∷ columns_sql table cs ∷ [])

  -- `createTableIfNotExist`
  unfoldable pub create_table_sql : Table T → String
  unfolding columns_sql pk_columns
  create_table_sql t =
      let keys = pk_columns T sf t.columns in
      concat (
        "create table if not exists identifier(?) ("
        ∷ columns_sql t.name t.columns
        ∷ (if is_empty keys
            then ""
            else concat (
                ", constraint "
                ∷ sanitize_column (pk_name t.name)
                ∷ " primary key ("
                ∷ join "," keys
                ∷ ")"
                ∷ []))
        ∷ ")"
        ∷ [])

  -- The text of a statement.
  unfoldable pub sql : Statement T → String
  unfolding create_table_sql
  sql (drop_primary_key t) = "alter table identifier(?) drop primary key"
  sql (add_primary_key t columns) = concat (
      "alter table identifier(?) add constraint "
      ∷ sanitize_column (pk_name t)
      ∷ " primary key("
      ∷ join "," (map sanitize_column columns)
      ∷ ")"
      ∷ [])
  sql (drop_unique t column) =
      concat ("alter table identifier(?) drop unique (" ∷ sanitize_column column ∷ ")" ∷ [])
  sql (add_column t c) = concat (
      "alter table identifier(?) add column "
      ∷ sanitize_column c.name
      ∷ " "
      ∷ sf.schema_type_to_snowflake c.type
      ∷ (if c.not_null then " not null" else "")
      ∷ unique_sql t c
      ∷ [])
  sql (drop_not_null t column) =
      concat
        ("alter table identifier(?) alter column " ∷ sanitize_column column ∷ " drop not null" ∷ [])
  sql (create_table t) = create_table_sql t
  sql (drop_table t) = "drop table identifier(?)"
