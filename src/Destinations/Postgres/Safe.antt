-- ===== src/Destinations/Postgres/Safe.antt =====
-- Tables of Postgres that are not to be forced.
use cloudquery_fork4devin.Base.{
  Member, ◌∷◌, here, there, contains, inl, inr, Bool-cases, ◌≡◌, refl, Bool, true, false, not, ◌&&◌,
  ◌||◌, String, List, [], map, Option, none, some, Dict, All, is_empty, is_some, eq_iff, arith,
}
use cloudquery_fork4devin.Destinations.Sdk.{Table, MigrateTable, Sdk}
use cloudquery_fork4devin.Destinations.Run.{done, ◌⟫◌, for_each}
use cloudquery_fork4devin.Destinations.RunLaws.{
  Only-done, Only-⟫, Only-for_each, Only-if, Only-or_fail, Only-checked,
}
use cloudquery_fork4devin.Destinations.Postgres.{
  Postgres, PgState, is_postgre_sql, PkConstraintDetails, create_extension, deallocate_all,
  list_tables_from,
}
use cloudquery_fork4devin.Destinations.Postgres.Sql.{normalize_table}
use cloudquery_fork4devin.Destinations.Postgres.Changes.{
  is_safe, can_auto_migrate, refuses, non_auto_migratable_tables, safe_tables_of,
  tables_from_messages,
}
use cloudquery_fork4devin.Destinations.Postgres.Migrate.{
  has_performance_columns, performance_index, exec, recreate_table, auto_migrate_change,
  auto_migrate_table, create_performance_indexes, migrate_existing, migrate_table, set_installed,
  ensure_pg_vector_extension_installed, migrate_listed, list_and_migrate, migrate_table_batch,
}
use cloudquery_fork4devin.Destinations.Postgres.Kept.{
  drops, Kept, OnlyKept, refused-Member, Only-exec, Only-create_table_if_not_exist,
  Only-recreate_table, Only-auto_migrate_change,
}

module _ (k : Sdk) (same_type : k.DataType → k.DataType → Bool) (pg : Postgres k.DataType)
    (fold : String → String) where
  abbrev T : Type 0
  T = k.DataType

  abbrev AllFolded : List (Table T) → Type 0
  AllFolded ts = All (λ t. fold t.name ≡ t.name) ts

  AllFolded-Member :
      (ts : List (Table T)) → AllFolded ts → (t : Table T) → Member t ts → fold t.name ≡ t.name
  AllFolded-Member [] h t m = elim m [ ]
  AllFolded-Member (u ∷ ts) h _ here = h.0
  AllFolded-Member (u ∷ ts) h t (there m) = AllFolded-Member ts h.1 t m

  normalize-AllFolded :
      (info : Dict PkConstraintDetails) (ts : List (Table T))
      → AllFolded ts
      → AllFolded (map (normalize_table T pg info) ts)
  unfolding normalize_table
  normalize-AllFolded info [] h = tt
  normalize-AllFolded info (t ∷ ts) h = (h.0, normalize-AllFolded info ts h.1)

  tables_from_messages-AllFolded :
      (msgs : List (MigrateTable T)) (seen : List String)
      → All (λ m. fold m.table.name ≡ m.table.name) msgs
      → AllFolded (tables_from_messages k same_type msgs seen)
  unfolding tables_from_messages
  tables_from_messages-AllFolded [] seen h = tt
  tables_from_messages-AllFolded (m ∷ ms) seen h = elim (Bool-cases (contains seen m.table.name)) [
    | inl e ↦ rw (e, tables_from_messages) (tables_from_messages-AllFolded ms seen h.1)
    | inr e ↦
        rw (e, tables_from_messages)
          (h.0, tables_from_messages-AllFolded ms (m.table.name ∷ seen) h.1)
  ]

  module _ (name : String) where
    Only-create_performance_indexes :
        (table : Table T)
        → OnlyKept k same_type pg fold name (create_performance_indexes k same_type pg table)
    unfolding create_performance_indexes
    Only-create_performance_indexes table =
        Only-if (Kept k same_type pg fold name) (has_performance_columns k same_type pg table)
          (exec k same_type pg (performance_index k same_type pg table)) done
          (λ e. Only-exec k same_type pg fold name (performance_index k same_type pg table) refl)
          (λ e. Only-done (Kept k same_type pg fold name))

    Only-migrate_existing :
        (safe : Dict Bool) (table : Table T) (existing : Option (Table T))
        → fold table.name ≡ table.name
        → is_safe k same_type safe name ≡ true
        → refuses k same_type safe table existing ≡ false
        → OnlyKept k same_type pg fold name (migrate_existing k same_type pg table existing)
    unfolding migrate_existing refuses auto_migrate_table
    Only-migrate_existing safe table none folded h passes =
        Only-create_table_if_not_exist k same_type pg fold name table
    Only-migrate_existing safe table (some old) folded h passes =
        let changes = k.get_changes table old in
        Only-if (Kept k same_type pg fold name) (can_auto_migrate k same_type changes)
          (auto_migrate_table k same_type pg table changes) (recreate_table k same_type pg table)
          (λ e.
            Only-for_each (Kept k same_type pg fold name)
              (λ c. auto_migrate_change k same_type pg table c c.type) changes
              λ c m. Only-auto_migrate_change k same_type pg fold name table c c.type)
          (λ e.
            Only-recreate_table k same_type pg fold name table
              (rw folded (grind (arith, eq_iff table.name name))))

    Only-migrate_table :
        (safe : Dict Bool) (existing : List (Table T)) (table : Table T)
        → fold table.name ≡ table.name
        → is_safe k same_type safe name ≡ true
        → refuses k same_type safe table (k.get existing table.name) ≡ false
        → OnlyKept k same_type pg fold name (migrate_table k same_type pg existing table)
    unfolding migrate_table
    Only-migrate_table safe existing table folded h passes =
        Only-if (Kept k same_type pg fold name) (is_empty table.columns) done _
          (λ e. Only-done (Kept k same_type pg fold name))
          λ e.
            Only-⟫ (Kept k same_type pg fold name)
              (migrate_existing k same_type pg table (k.get existing table.name)) _
              (Only-migrate_existing safe table (k.get existing table.name) folded h passes)
              (Only-if (Kept k same_type pg fold name) pg.create_performance_indexes
                (create_performance_indexes k same_type pg table) done
                (λ e. Only-create_performance_indexes table)
                (λ e. Only-done (Kept k same_type pg fold name)))

    Only-migrate_listed :
        (msgs : List (MigrateTable T)) (listed : List (Table T) × Dict PkConstraintDetails)
        → All (λ m. fold m.table.name ≡ m.table.name) msgs
        → is_safe k same_type (safe_tables_of k same_type msgs []) name ≡ true
        → OnlyKept k same_type pg fold name (migrate_listed k same_type pg msgs listed)
    unfolding migrate_listed
    Only-migrate_listed msgs (existing, info) folded h =
        let tables = map (normalize_table T pg info) (tables_from_messages k same_type msgs []) in
        let safe = safe_tables_of k same_type msgs [] in
        record {
          only = λ s q.
              (Only-checked (Kept k same_type pg fold name)
                  (non_auto_migratable_tables k same_type tables existing safe) _
                  λ e.
                    Only-⟫ (Kept k same_type pg fold name)
                      (for_each (migrate_table k same_type pg existing) tables)
                      (exec k same_type pg deallocate_all)
                      (Only-for_each (Kept k same_type pg fold name)
                        (migrate_table k same_type pg existing) tables
                        λ table m.
                          Only-migrate_table safe existing table
                            (AllFolded-Member tables
                              (normalize-AllFolded info (tables_from_messages k same_type msgs [])
                                (tables_from_messages-AllFolded msgs [] folded))
                              table m)
                            h (refused-Member k same_type pg fold tables existing safe e table m))
                      (Only-exec k same_type pg fold name deallocate_all refl)).only
                _ q;
        }

    Only-list_and_migrate :
        (msgs : List (MigrateTable T))
        → All (λ m. fold m.table.name ≡ m.table.name) msgs
        → is_safe k same_type (safe_tables_of k same_type msgs []) name ≡ true
        → OnlyKept k same_type pg fold name (list_and_migrate k same_type pg msgs)
    unfolding list_and_migrate
    Only-list_and_migrate msgs folded h = record {
      only = λ s q.
          (Only-or_fail (Kept k same_type pg fold name) (pg.select_tables s.log) _ λ rows.
              Only-or_fail (Kept k same_type pg fold name) (list_tables_from T pg rows [] [])
                (migrate_listed k same_type pg msgs)
                λ listed. Only-migrate_listed msgs listed folded h).only
            s q;
    }

    Only-ensure_pg_vector_extension_installed :
        OnlyKept k same_type pg fold name (ensure_pg_vector_extension_installed k same_type pg)
    unfolding ensure_pg_vector_extension_installed
    Only-ensure_pg_vector_extension_installed = record {
      only = λ s q.
          (Only-if (Kept k same_type pg fold name)
              (s.pg_vector_extension_installed
                || not (is_some pg.pg_vector_config && is_postgre_sql pg.pg_type))
              done (exec k same_type pg create_extension ⟫ set_installed k same_type pg)
              (λ e. Only-done (Kept k same_type pg fold name))
              λ e.
                Only-⟫ (Kept k same_type pg fold name) (exec k same_type pg create_extension)
                  (set_installed k same_type pg)
                  (Only-exec k same_type pg fold name create_extension refl)
                  (record { only = λ t h. h })).only
            s q;
    }

    -- Over any messages whose tables have names that the server reads as they are where they are not
    -- quoted (`fold` gives what it reads, such as lower case), and whatever the server answers, no statement of a migration drops a table whose last message is not forced, where
    -- none before it did, also where a transaction, a query or another table's migration fails.
    pub migrate_table_batch-safe :
        (msgs : List (MigrateTable T)) (s : PgState T)
        → All (λ m. fold m.table.name ≡ m.table.name) msgs
        → is_safe k same_type (safe_tables_of k same_type msgs []) name ≡ true
        → All (λ st. drops k same_type pg fold name st ≡ false) s.log
        → All
            (λ st. drops k same_type pg fold name st ≡ false)
            (migrate_table_batch k same_type pg msgs s).0.log
    unfolding migrate_table_batch
    migrate_table_batch-safe msgs s folded h =
        (Only-⟫ (Kept k same_type pg fold name)
            (ensure_pg_vector_extension_installed k same_type pg)
            (list_and_migrate k same_type pg msgs) Only-ensure_pg_vector_extension_installed
            (Only-list_and_migrate msgs folded h)).only
          s
