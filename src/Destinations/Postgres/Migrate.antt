-- ===== src/Destinations/Postgres/Migrate.antt =====
-- plugins/destination/postgresql/client/migrate.go: what the migration does with the server.
use cloudquery_fork4devin.Base.{
  Bool, true, false, ◌&&◌, ◌||◌, not, String, List, [], ◌∷◌, ◌++◌, map, Option, none, some, Dict,
  insert, lookup, and_then, concat, is_some, is_empty, if◌then◌else◌,
}
use cloudquery_fork4devin.Destinations.Sdk.{
  ChangeType, Column, Table, Change, MigrateTable, Sdk, add, remove_unique_constraint,
  move_to_cq_only,
}
use cloudquery_fork4devin.Destinations.Run.{Run, checked, or_fail, done, ◌⟫◌, for_each}
use cloudquery_fork4devin.Destinations.Postgres.{
  Postgres, PgState, is_cockroach_db, is_postgre_sql, PkConstraintDetails, PgVectorConfig,
  PgVectorTableConfig, table_config, Statement, create_extension, create_table, drop_table,
  add_column, drop_constraint, add_primary_key, drop_not_null, drop_unique, create_vector_table,
  create_index, begin, commit, rollback, deallocate_all, list_tables_from,
}
use cloudquery_fork4devin.Destinations.Postgres.Sql.{
  cq_id, performance_index_name, vector_index_name, normalize_table, primary_keys,
}
use cloudquery_fork4devin.Destinations.Postgres.Changes.{
  can_auto_migrate, non_auto_migratable_tables, safe_tables_of, tables_from_messages,
}

module _ (k : Sdk) (same_type : k.DataType → k.DataType → Bool) (pg : Postgres k.DataType) where
  abbrev T : Type 0
  T = k.DataType

  abbrev PgRun : Type 0
  PgRun = Run (PgState T)

  abbrev pub exec : Statement T → PgRun
  exec st s = (record s { log = s.log ++ st ∷ [] }, pg.exec s.log st)

  -- `getPKName`
  abbrev pub with_pk_name : String → (String → PgRun) → PgRun
  with_pk_name table f s = or_fail (pg.pk_name s.log table) f s

  -- The deferred end of a transaction: a commit, or a rollback where the run or the commit failed.
  abbrev pub rolled_back : PgState T × Bool → PgState T × Bool
  rolled_back (s, true) = (s, true)
  rolled_back (s, false) = ((exec rollback s).0, false)

  unfoldable pub in_transaction : PgRun → PgRun
  in_transaction f s = rolled_back ((f ⟫ exec commit) s)

  abbrev pub columns_of : Option PkConstraintDetails → List String
  columns_of none = []
  columns_of (some d) = d.columns

  abbrev pub ensure_details : Option PkConstraintDetails → String → PgState T → PgState T
  ensure_details none table s = record s {
    pk_constraints = insert table (record { name = ""; columns = [] }) s.pk_constraints;
  }
  ensure_details (some d) table s = s

  unfoldable pub drop_old_not_null : String → PgRun
  drop_old_not_null table s =
      let entry = lookup table s.pk_constraints in
      for_each (λ column. exec (drop_not_null table column)) (columns_of entry)
        (ensure_details entry table s)

  -- For CockroachDB the first transaction ends here. That it could not be committed is only logged.
  unfoldable pub next_transaction : PgRun
  next_transaction s = exec begin (rolled_back (exec commit s)).0

  -- `migrateToCQID`
  unfoldable pub migrate_to_cqid : Table T → PgRun
  unfolding in_transaction drop_old_not_null next_transaction
  migrate_to_cqid table = with_pk_name table.name λ name.
      exec begin
      ⟫ in_transaction (
          exec (drop_constraint table.name name)
          ⟫ exec (add_primary_key table.name name)
          ⟫ (if is_cockroach_db pg.pg_type then next_transaction else done)
          ⟫ drop_old_not_null table.name)

  -- The base columns of an embeddings table; `none` where one is missing.
  unfoldable pub base_columns : List (Column T) → List String → Option (List (Column T))
  base_columns columns [] = some []
  base_columns columns (name ∷ names) =
      let rest = base_columns columns names in
      and_then (k.get_column columns name) λ col. and_then rest λ cols. some (col ∷ cols)

  unfoldable pub vector_definition : Column T → String
  vector_definition col = concat (
      pg.sanitize col.name
      ∷ " "
      ∷ pg.schema_type_to_pg col.type
      ∷ (if col.primary_key then " NOT NULL" else "")
      ∷ [])

  unfoldable pub create_vector_table_for : PgVectorConfig → PgVectorTableConfig → Table T → PgRun
  unfolding base_columns vector_definition
  create_vector_table_for config tc table =
      or_fail (base_columns table.columns tc.metadata_columns) λ cols.
        exec (
          create_vector_table tc.target_table_name (
            map vector_definition cols
            ++ "chunk text" ∷ concat ("embedding vector(" ∷ config.dimensions ∷ ")" ∷ []) ∷ []))
        ⟫ exec (
            create_index (vector_index_name T pg tc.target_table_name) tc.target_table_name
              (cq_id ∷ []))

  -- `createPgVectorTableIfNotExists`
  abbrev pub create_configured : Option PgVectorConfig → Table T → PgRun
  create_configured none table = done
  create_configured (some config) table = elim (table_config table.name config.tables) [
    | none ↦ done
    | some tc ↦ create_vector_table_for config tc table
  ]

  unfoldable pub create_pg_vector_table_if_not_exists : Table T → PgRun
  unfolding create_vector_table_for
  create_pg_vector_table_if_not_exists table =
      if is_postgre_sql pg.pg_type then create_configured pg.pg_vector_config table else done

  abbrev pub set_details : Table T → String → PgRun
  set_details table name s = (
    record s {
      pk_constraints =
          insert table.name (record { name = name; columns = primary_keys T pg table.columns })
            s.pk_constraints;
    },
    true,
  )

  -- `createTableIfNotExist`
  unfoldable pub create_table_if_not_exist : Table T → PgRun
  unfolding create_pg_vector_table_if_not_exists
  create_table_if_not_exist table =
      exec (create_table table)
      ⟫ with_pk_name table.name (set_details table)
      ⟫ create_pg_vector_table_if_not_exists table

  -- `dropTable`
  unfoldable pub recreate_table : Table T → PgRun
  unfolding create_table_if_not_exist
  recreate_table table = exec (drop_table table.name) ⟫ create_table_if_not_exist table

  abbrev pub auto_migrate_change : Table T → Change T → ChangeType → PgRun
  auto_migrate_change table c add =
      exec (add_column table.name c.current.name (pg.schema_type_to_pg c.current.type))
  auto_migrate_change table c move_to_cq_only = migrate_to_cqid table
  auto_migrate_change table c remove_unique_constraint =
      exec (drop_unique table.name (concat (table.name ∷ "_" ∷ c.column_name ∷ "_key" ∷ [])))
  auto_migrate_change table c _ = done

  -- `autoMigrateTable`
  unfoldable pub auto_migrate_table : Table T → List (Change T) → PgRun
  auto_migrate_table table = for_each λ c. auto_migrate_change table c c.type

  abbrev pub has_performance_columns : Table T → Bool
  has_performance_columns table =
      is_some (k.get_column table.columns "_cq_source_name")
      && (is_some (k.get_column table.columns "_cq_sync_time")
          && not (is_empty (primary_keys T pg table.columns)))

  abbrev pub performance_index : Table T → Statement T
  performance_index table =
      create_index (performance_index_name T pg table.name) table.name
        ("_cq_source_name" ∷ "_cq_sync_time" ∷ [])

  -- `createPerformanceIndexes`
  unfoldable pub create_performance_indexes : Table T → PgRun
  create_performance_indexes table =
      if has_performance_columns table then exec (performance_index table) else done

  unfoldable pub migrate_existing : Table T → Option (Table T) → PgRun
  unfolding auto_migrate_table recreate_table create_table_if_not_exist
  migrate_existing table none = create_table_if_not_exist table
  migrate_existing table (some existing) =
      let changes = k.get_changes table existing in
      if can_auto_migrate k same_type changes
      then auto_migrate_table table changes
      else recreate_table table

  -- The loop of `MigrateTableBatch` over the tables.
  unfoldable pub migrate_table : List (Table T) → Table T → PgRun
  unfolding migrate_existing create_performance_indexes
  migrate_table existing table =
      if is_empty table.columns
      then done
      else migrate_existing table (k.get existing table.name)
        ⟫ (if pg.create_performance_indexes then create_performance_indexes table else done)

  abbrev pub set_installed : PgRun
  set_installed s = (record s { pg_vector_extension_installed = true }, true)

  -- `ensurePgVectorExtensionInstalled`
  unfoldable pub ensure_pg_vector_extension_installed : PgRun
  ensure_pg_vector_extension_installed s =
      (if s.pg_vector_extension_installed
            || not (is_some pg.pg_vector_config && is_postgre_sql pg.pg_type)
          then done
          else exec create_extension ⟫ set_installed)
        s

  -- The rest of `MigrateTableBatch`, with what `listTables` found.
  unfoldable pub migrate_listed :
      List (MigrateTable T) → List (Table T) × Dict PkConstraintDetails → PgRun
  unfolding migrate_table
  migrate_listed msgs (existing, info) s =
      let tables = map (normalize_table T pg info) (tables_from_messages k same_type msgs []) in
      (checked
          (non_auto_migratable_tables k same_type tables existing
            (safe_tables_of k same_type msgs []))
          (for_each (migrate_table existing) tables ⟫ exec deallocate_all))
        (record s { pk_constraints = info })

  unfoldable pub list_and_migrate : List (MigrateTable T) → PgRun
  unfolding migrate_listed
  list_and_migrate msgs s =
      or_fail (pg.select_tables s.log)
        (λ rows. or_fail (list_tables_from T pg rows [] []) (migrate_listed msgs)) s

  -- `MigrateTableBatch`
  unfoldable pub migrate_table_batch : List (MigrateTable T) → PgRun
  unfolding ensure_pg_vector_extension_installed list_and_migrate
  migrate_table_batch msgs = ensure_pg_vector_extension_installed ⟫ list_and_migrate msgs
