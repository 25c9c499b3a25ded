-- ===== src/Destinations/Postgres/Kept.antt =====
-- Steps of a migration of Postgres that do not drop a table.
use cloudquery_fork4devin.Base.{
  ◌≡◌, refl, Bool, true, false, String, List, [], ◌∷◌, Option, none, some, Dict, Member, here,
  there, All, All-append, lookup, Option-cases, inl, inr, if◌then◌else◌, ◌==◌,
}
use cloudquery_fork4devin.Destinations.Sdk.{
  ChangeType, Table, Change, Sdk, unknown, add, update, remove, remove_unique_constraint,
  move_to_cq_only,
}
use cloudquery_fork4devin.Destinations.Run.{Run, done, ◌⟫◌}
use cloudquery_fork4devin.Destinations.RunLaws.{
  nothing_added, Only, Only-done, Only-⟫, Only-for_each, Only-if, Only-or_fail,
}
use cloudquery_fork4devin.Destinations.Postgres.{
  Postgres, PgState, is_cockroach_db, is_postgre_sql, PkConstraintDetails, PgVectorConfig,
  PgVectorTableConfig, table_config, Statement, create_table, drop_table, add_column,
  drop_constraint, add_primary_key, drop_not_null, drop_unique, create_vector_table, create_index,
  begin, commit, rollback,
}
use cloudquery_fork4devin.Destinations.Postgres.Sql.{cq_id}
use cloudquery_fork4devin.Destinations.Postgres.Changes.{refuses, non_auto_migratable_tables}
use cloudquery_fork4devin.Destinations.Postgres.Migrate.{
  exec, with_pk_name, in_transaction, rolled_back, ensure_details, columns_of, drop_old_not_null,
  next_transaction, migrate_to_cqid, create_vector_table_for, create_configured,
  create_pg_vector_table_if_not_exists, set_details, create_table_if_not_exist, recreate_table,
  auto_migrate_change,
}

module _ (k : Sdk) (same_type : k.DataType → k.DataType → Bool) (pg : Postgres k.DataType)
    (fold : String → String) where
  abbrev T : Type 0
  T = k.DataType

  -- A statement that drops the table of a name. `drop table` has the name without quotes, so that the
  -- server folds it (to lower case, in Postgres).
  abbrev pub drops : String → Statement T → Bool
  drops name (drop_table other) = fold other == name
  drops name _ = false

  abbrev Keeps : String → Statement T → Type 0
  Keeps name st = drops name st ≡ false

  abbrev pub Kept : String → PgState T → Type 0
  Kept name s = All (Keeps name) s.log

  pub refused-Member :
      (tables existing : List (Table T)) (safe : Dict Bool)
      → non_auto_migratable_tables k same_type tables existing safe ≡ []
      → (t : Table T) → Member t tables
      → refuses k same_type safe t (k.get existing t.name) ≡ false
  unfolding non_auto_migratable_tables
  refused-Member [] existing safe e t m = elim m [ ]
  refused-Member (u ∷ us) existing safe e _ here =
      (nothing_added (refuses k same_type safe u (k.get existing u.name)) u.name _ e).0
  refused-Member (u ∷ us) existing safe e t (there m) =
      refused-Member us existing safe
        (nothing_added (refuses k same_type safe u (k.get existing u.name)) u.name _ e).1 t m

  module _ (name : String) where
    abbrev pub OnlyKept : Run (PgState T) → Type 0
    OnlyKept f = Only (Kept name) f

    Kept-exec :
        (st : Statement T)
        → Keeps name st
        → (s : PgState T) → Kept name s
        → Kept name (exec k same_type pg st s).0
    Kept-exec st p s h = All-append (Keeps name) s.log (st ∷ []) h (p, tt)

    pub Only-exec : (st : Statement T) → Keeps name st → OnlyKept (exec k same_type pg st)
    Only-exec st p = record { only = Kept-exec st p }

    Only-with_pk_name :
        (table : String) (f : String → Run (PgState T))
        → ((pk : String) → OnlyKept (f pk))
        → OnlyKept (with_pk_name k same_type pg table f)
    Only-with_pk_name table f h = record {
      only = λ s q. (Only-or_fail (Kept name) (pg.pk_name s.log table) f h).only s q;
    }

    Kept-rolled_back :
        (r : PgState T × Bool) → Kept name r.0 → Kept name (rolled_back k same_type pg r).0
    Kept-rolled_back (s, true) h = h
    Kept-rolled_back (s, false) h = Kept-exec rollback refl s h

    Only-in_transaction :
        (f : Run (PgState T)) → OnlyKept f → OnlyKept (in_transaction k same_type pg f)
    unfolding in_transaction
    Only-in_transaction f h = record {
      only = λ s q.
          Kept-rolled_back ((f ⟫ exec k same_type pg commit) s) (
            (Only-⟫ (Kept name) f (exec k same_type pg commit) h (Only-exec commit refl)).only s q);
    }

    Only-next_transaction : OnlyKept (next_transaction k same_type pg)
    unfolding next_transaction
    Only-next_transaction = record {
      only = λ s q.
          Kept-exec begin refl (rolled_back k same_type pg (exec k same_type pg commit s)).0
            (Kept-rolled_back (exec k same_type pg commit s) (Kept-exec commit refl s q));
    }

    Kept-ensure_details :
        (o : Option PkConstraintDetails) (table : String) (s : PgState T)
        → Kept name s
        → Kept name (ensure_details k same_type pg o table s)
    Kept-ensure_details none table s h = h
    Kept-ensure_details (some d) table s h = h

    Only-drop_old_not_null : (table : String) → OnlyKept (drop_old_not_null k same_type pg table)
    unfolding drop_old_not_null
    Only-drop_old_not_null table = record {
      only = λ s q.
          let entry = lookup table s.pk_constraints in
          (Only-for_each (Kept name) (λ column. exec k same_type pg (drop_not_null table column))
              (columns_of k same_type pg entry)
              (λ column m. Only-exec (drop_not_null table column) refl)).only
            (ensure_details k same_type pg entry table s) (Kept-ensure_details entry table s q);
    }

    Only-migrate_to_cqid : (table : Table T) → OnlyKept (migrate_to_cqid k same_type pg table)
    unfolding migrate_to_cqid
    Only-migrate_to_cqid table = Only-with_pk_name table.name _ λ pk.
        Only-⟫ (Kept name) (exec k same_type pg begin) _ (Only-exec begin refl) (
          Only-in_transaction _ (
            Only-⟫ (Kept name) _ (drop_old_not_null k same_type pg table.name)
              (Only-⟫ (Kept name) _
                (if is_cockroach_db pg.pg_type then next_transaction k same_type pg else done)
                (Only-⟫ (Kept name) (exec k same_type pg (drop_constraint table.name pk))
                  (exec k same_type pg (add_primary_key table.name pk))
                  (Only-exec (drop_constraint table.name pk) refl)
                  (Only-exec (add_primary_key table.name pk) refl))
                (Only-if (Kept name) (is_cockroach_db pg.pg_type) (next_transaction k same_type pg)
                  done (λ e. Only-next_transaction) (λ e. Only-done (Kept name))))
              (Only-drop_old_not_null table.name)))

    Only-create_vector_table_for :
        (config : PgVectorConfig) (tc : PgVectorTableConfig) (table : Table T)
        → OnlyKept (create_vector_table_for k same_type pg config tc table)
    unfolding create_vector_table_for
    Only-create_vector_table_for config tc table = Only-or_fail (Kept name) _ _ λ cols.
        Only-⟫ (Kept name) _ _ (Only-exec (create_vector_table tc.target_table_name _) refl)
          (Only-exec (create_index _ tc.target_table_name (cq_id ∷ [])) refl)

    Only-create_configured :
        (o : Option PgVectorConfig) (table : Table T)
        → OnlyKept (create_configured k same_type pg o table)
    Only-create_configured none table = Only-done (Kept name)
    Only-create_configured (some config) table =
        elim (Option-cases (table_config table.name config.tables)) [
          | inl e ↦ rw (e, create_configured) (Only-done (Kept name))
          | inr (tc, e) ↦ rw (e, create_configured) (Only-create_vector_table_for config tc table)
        ]

    pub Only-create_table_if_not_exist :
        (table : Table T) → OnlyKept (create_table_if_not_exist k same_type pg table)
    unfolding create_table_if_not_exist create_pg_vector_table_if_not_exists
    Only-create_table_if_not_exist table =
        Only-⟫ (Kept name) _ (create_pg_vector_table_if_not_exists k same_type pg table)
          (Only-⟫ (Kept name) (exec k same_type pg (create_table table))
            (with_pk_name k same_type pg table.name (set_details k same_type pg table))
            (Only-exec (create_table table) refl)
            (Only-with_pk_name table.name _ λ pk. record { only = λ s h. h }))
          (Only-if (Kept name) (is_postgre_sql pg.pg_type) _ done
            (λ e. Only-create_configured pg.pg_vector_config table) (λ e. Only-done (Kept name)))

    pub Only-recreate_table :
        (table : Table T)
        → (fold table.name == name) ≡ false
        → OnlyKept (recreate_table k same_type pg table)
    unfolding recreate_table
    Only-recreate_table table other =
        Only-⟫ (Kept name) (exec k same_type pg (drop_table table.name)) _
          (Only-exec (drop_table table.name) other) (Only-create_table_if_not_exist table)

    pub Only-auto_migrate_change :
        (table : Table T) (c : Change T) (type : ChangeType)
        → OnlyKept (auto_migrate_change k same_type pg table c type)
    Only-auto_migrate_change table c add = Only-exec (add_column table.name c.current.name _) refl
    Only-auto_migrate_change table c move_to_cq_only = Only-migrate_to_cqid table
    Only-auto_migrate_change table c remove_unique_constraint =
        Only-exec (drop_unique table.name _) refl
    Only-auto_migrate_change table c unknown = Only-done (Kept name)
    Only-auto_migrate_change table c update = Only-done (Kept name)
    Only-auto_migrate_change table c remove = Only-done (Kept name)
