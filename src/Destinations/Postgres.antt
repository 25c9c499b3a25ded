-- ===== src/Destinations/Postgres.antt =====
-- plugins/destination/postgresql/client: the statements of migrate.go, and list_tables.go.
pub mod Sql
pub mod Changes
pub mod Migrate
pub mod Kept
pub mod Safe
pub mod Names
mod Examples
use cloudquery_fork4devin.Base.{
  ℕ, num_eq, Bool, true, false, ◌&&◌, String, List, [], ◌∷◌, ◌++◌, Option, none, some, Dict, insert,
  lookup, and_then, concat, if◌then◌else◌, ◌==◌,
}
use cloudquery_fork4devin.Destinations.Sdk.{Column, Table}

-- `pgType`
pub data PgType : Type 0 where
  postgre_sql cockroach_db crate_db : PgType

abbrev pub is_cockroach_db : PgType → Bool
is_cockroach_db cockroach_db = true
is_cockroach_db _ = false

abbrev pub is_crate_db : PgType → Bool
is_crate_db crate_db = true
is_crate_db _ = false

abbrev pub is_postgre_sql : PgType → Bool
is_postgre_sql postgre_sql = true
is_postgre_sql _ = false

-- `pkConstraintDetails`
pub record PkConstraintDetails : Type 0 where
  pub name : String
  pub columns : List String

-- `PgVectorTableConfig`
pub record PgVectorTableConfig : Type 0 where
  pub source_table_name : String
  pub target_table_name : String
  pub metadata_columns : List String

-- `PgVectorConfig`, with the dimensions as `%d` writes them.
pub record PgVectorConfig : Type 0 where
  pub tables : List PgVectorTableConfig
  pub dimensions : String

-- `GetPgVectorTableConfig`
unfoldable pub table_config : String → List PgVectorTableConfig → Option PgVectorTableConfig
table_config name [] = none
table_config name (t ∷ ts) =
    let rest = table_config name ts in if t.source_table_name == name then some t else rest

-- A row of `selectTables`.
pub record ColumnRow : Type 0 where
  pub ordinal_position : ℕ
  pub table_name : String
  pub column_name : String
  pub column_type : String
  pub is_primary_key : Bool
  pub not_null : Bool
  pub pk_name : String
  pub is_unique : Bool
  pub unique_name : String

module _ (T : Type 0) where
  pub data Statement : Type 0 where
    create_extension : Statement
    create_table : (table : Table T) → Statement
    drop_table : (name : String) → Statement
    add_column : (table column type : String) → Statement
    drop_constraint : (table name : String) → Statement
    add_primary_key : (table name : String) → Statement
    drop_not_null : (table column : String) → Statement
    drop_unique : (table index : String) → Statement
    create_vector_table : (target : String) (definitions : List String) → Statement
    create_index : (name table : String) (columns : List String) → Statement
    begin commit rollback deallocate_all : Statement

  -- What the client is given: the kind of server, its spec, the names that pgx and the standard
  -- library make, the types of pgarrow, and the answers of the server after the statements so far.
  pub record Postgres : Type 0 where
    pub pg_type : PgType
    pub create_performance_indexes : Bool
    pub pg_vector_config : Option PgVectorConfig
    pub sanitize : String → String
    pub sha256_hex : String → String
    pub schema_type_to_pg : T → String
    pub pg_to_schema_type : String → T
    pub select_tables : List Statement → Option (List ColumnRow)
    -- `getPKName`: empty where there is none, `none` on an error
    pub pk_name : List Statement → String → Option String
    pub exec : List Statement → Statement → Bool

  -- The fields of the client that a migration changes, and the statements that the server was given.
  pub record PgState : Type 0 where
    pub log : List Statement
    pub pk_constraints : Dict PkConstraintDetails
    pub pg_vector_extension_installed : Bool

  module _ (pg : Postgres) where
    unfoldable pub column_of : ColumnRow → Column T
    column_of row = record {
      name = row.column_name;
      type = pg.pg_to_schema_type row.column_type;
      primary_key = row.is_primary_key;
      not_null = row.not_null;
      unique =
          row.is_unique
          && row.unique_name == concat (row.table_name ∷ "_" ∷ row.column_name ∷ "_key" ∷ []);
    }

    abbrev named_pk : String → Table T → Table T
    named_pk pk_name table =
        if pk_name == "" then table else record table { pk_constraint_name = pk_name }

    -- `tables[len(tables)-1]` with one more column; `none` is the panic where there is no table.
    unfoldable pub add_to_last : ColumnRow → List (Table T) → Option (List (Table T))
    unfolding column_of
    add_to_last row [] = none
    add_to_last row (t ∷ []) =
        some (named_pk row.pk_name (record t { columns = t.columns ++ column_of row ∷ [] }) ∷ [])
    add_to_last row (t ∷ u ∷ ts) = and_then (add_to_last row (u ∷ ts)) λ rest. some (t ∷ rest)

    abbrev details_or_new : Option PkConstraintDetails → PkConstraintDetails
    details_or_new none = record { name = ""; columns = [] }
    details_or_new (some d) = d

    unfoldable pub add_details : ColumnRow → Dict PkConstraintDetails → Dict PkConstraintDetails
    add_details row info =
        let d = details_or_new (lookup row.table_name info) in
        insert row.table_name
          (if row.pk_name == ""
            then d
            else record { name = row.pk_name; columns = d.columns ++ row.column_name ∷ [] })
          info

    -- The loop of `listTables` over the rows.
    unfoldable pub list_tables_from :
        List ColumnRow
        → List (Table T)
        → Dict PkConstraintDetails
        → Option (List (Table T) × Dict PkConstraintDetails)
    unfolding add_to_last add_details
    list_tables_from [] tables info = some (tables, info)
    list_tables_from (row ∷ rows) tables info =
        let started =
          if num_eq row.ordinal_position 1
          then tables
            ++ record { name = row.table_name; columns = []; pk_constraint_name = "" } ∷ []
          else tables in
        and_then (add_to_last row started)
          λ grown. list_tables_from rows grown (add_details row info)
