-- ===== src/Destinations/Snowflake.antt =====
-- plugins/destination/snowflake/client/migrate.go: the comparison of a table with that of the database,
-- and the statements that bring the one to the other.
pub mod Sql
pub mod Unchanged
mod Examples
use cloudquery_fork4devin.Base.{
  Bool, true, false, ◌&&◌, ◌||◌, not, String, List, [], ◌∷◌, ◌++◌, map, Option, none, some, concat,
  join, is_some, is_empty, has_prefix, if◌then◌else◌, ◌==◌,
}
use cloudquery_fork4devin.Destinations.Sdk.{
  Database, ChangeType, Column, Table, Change, unknown, add, update, remove,
  remove_unique_constraint, move_to_cq_only,
}
use cloudquery_fork4devin.Destinations.Run.{Run, done, fail, ◌⟫◌, for_each}

abbrev same_bool : Bool → Bool → Bool
same_bool true b = b
same_bool false b = not b

-- `uniqueConstraintName`
abbrev pub unique_constraint_name : String → String → String
unique_constraint_name table column = concat (table ∷ "_" ∷ column ∷ "_key" ∷ [])

-- `pkName`
abbrev pub pk_name : String → String
pk_name table = concat (table ∷ "_pk" ∷ [])

-- The statements of a migration; the name of the table is their argument.
pub data Statement (T : Type 0) : Type 0 where
  drop_primary_key : (table : String) → Statement T
  add_primary_key : (table : String) (columns : List String) → Statement T
  drop_unique : (table column : String) → Statement T
  add_column : (table : String) (column : Column T) → Statement T
  drop_not_null : (table column : String) → Statement T
  create_table : (table : Table T) → Statement T
  drop_table : (table : String) → Statement T

-- What the client uses of Go's and Arrow's libraries: `strings.EqualFold`, `strings.ToUpper`,
-- `arrow.TypeEqual`, the column of no type, and the type names of types.go.
pub record Snowflake (T : Type 0) : Type 0 where
  pub equal_fold : String → String → Bool
  pub to_upper : String → String
  pub type_equal : T → T → Bool
  pub no_column : Column T
  pub schema_type_to_snowflake : T → String
  -- `ConstraintNameForColumns` of the unique constraints of a table, for one column
  pub constraint_name : String → String → String
  pub has_constraints : String → Bool

module _ (T : Type 0) (sf : Snowflake T) where
  -- `findColumn`
  unfoldable pub find_column : List (Column T) → String → Option (Column T)
  find_column [] name = none
  find_column (c ∷ cs) name =
      let rest = find_column cs name in if sf.equal_fold c.name name then some c else rest

  abbrev pub differs : Column T → Column T → Bool
  differs c d =
      not (sf.type_equal c.type d.type)
      || (not (same_bool c.not_null d.not_null) || not (same_bool c.primary_key d.primary_key))

  abbrev pub when : Bool → Change T → List (Change T)
  when b c = if b then c ∷ [] else []

  -- The changes of a column, by what the old table has.
  unfoldable pub column_changes : Column T → Option (Column T) → List (Change T)
  column_changes c none =
      record { type = add; column_name = c.name; current = c; previous = sf.no_column } ∷ []
  column_changes c (some d) =
      when (differs c d) (record { type = update; column_name = c.name; current = c; previous = d })
      ++ when (not c.unique && d.unique) (record {
        type = remove_unique_constraint;
        column_name = c.name;
        current = sf.no_column;
        previous = d;
      })

  unfoldable pub added_changes : List (Column T) → List (Column T) → List (Change T)
  unfolding column_changes find_column
  added_changes [] old = []
  added_changes (c ∷ cs) old = column_changes c (find_column old c.name) ++ added_changes cs old

  unfoldable pub removed_changes : List (Column T) → List (Column T) → List (Change T)
  unfolding find_column
  removed_changes new [] = []
  removed_changes new (c ∷ cs) =
      let rest = removed_changes new cs in
      if is_some (find_column new c.name)
      then rest
      else record { type = remove; column_name = c.name; current = sf.no_column; previous = c }
        ∷ rest

  -- `getTableChangesCaseInsensitive`
  unfoldable pub get_table_changes : Table T → Table T → List (Change T)
  unfolding added_changes removed_changes
  get_table_changes t old =
      added_changes t.columns old.columns ++ removed_changes t.columns old.columns

  -- `canAutoMigrate`
  abbrev pub can_auto_migrate_change : Change T → ChangeType → Bool
  can_auto_migrate_change c add = not c.current.not_null
  can_auto_migrate_change c remove = not c.previous.not_null
  can_auto_migrate_change c move_to_cq_only = true
  can_auto_migrate_change c remove_unique_constraint = true
  can_auto_migrate_change c update =
      (c.previous.not_null && not c.current.not_null)
      || not (same_bool c.previous.primary_key c.current.primary_key)
  can_auto_migrate_change c unknown = false

  unfoldable pub can_auto_migrate : List (Change T) → Bool
  can_auto_migrate [] = true
  can_auto_migrate (c ∷ cs) = can_auto_migrate_change c c.type && can_auto_migrate cs

  -- The first loop of `autoMigrateTable`.
  abbrev pub drops_pk : Change T → ChangeType → Bool
  drops_pk c update = c.previous.primary_key && not c.current.primary_key
  drops_pk c remove = c.previous.primary_key
  drops_pk c _ = false

  abbrev pub adds_pk : Change T → ChangeType → Bool
  adds_pk c update = not c.previous.primary_key && c.current.primary_key
  adds_pk c add = c.current.primary_key
  adds_pk c _ = false

  abbrev pub any_change : (Change T → Bool) → List (Change T) → Bool
  any_change p [] = false
  any_change p (c ∷ cs) = p c || any_change p cs

  unfoldable pub pk_columns : List (Column T) → List String
  pk_columns [] = []
  pk_columns (c ∷ cs) = let rest = pk_columns cs in if c.primary_key then c.name ∷ rest else rest

  module _ (db : Database (Statement T)) where
    abbrev pub exec : Statement T → Run (List (Statement T))
    exec st log = (log ++ st ∷ [], db log st)

    -- `alterColumnDropUniqueConstraint`
    unfoldable pub drop_unique_constraint : Table T → Change T → Run (List (Statement T))
    drop_unique_constraint table c =
        let name = sf.constraint_name table.name c.column_name in
        if not (sf.has_constraints table.name) || name == ""
        then done
        else if not (has_prefix name "SYS_CONSTRAINT_")
            && not (sf.equal_fold (unique_constraint_name table.name c.column_name) name)
        then done
        else exec (drop_unique table.name c.column_name)

    unfoldable pub migrate_change : Table T → Change T → ChangeType → Run (List (Statement T))
    unfolding drop_unique_constraint
    migrate_change table c remove_unique_constraint = drop_unique_constraint table c
    migrate_change table c add = exec (add_column table.name c.current)
    migrate_change table c update =
        if c.previous.not_null && not c.current.not_null
        then exec (drop_not_null table.name c.current.name)
        else done
    migrate_change table c _ = done

    unfoldable pub migrate_keys : Table T → List (Change T) → Run (List (Statement T))
    unfolding pk_columns
    migrate_keys table cs =
        (if any_change (λ c. drops_pk c c.type) cs
          then exec (drop_primary_key table.name)
          else done)
        ⟫ (if any_change (λ c. adds_pk c c.type) cs && not (is_empty (pk_columns table.columns))
            then exec (add_primary_key table.name (pk_columns table.columns))
            else done)

    -- `autoMigrateTable`
    unfoldable pub auto_migrate_table : Table T → List (Change T) → Run (List (Statement T))
    unfolding migrate_keys migrate_change
    auto_migrate_table table cs =
        migrate_keys table cs ⟫ for_each (λ c. migrate_change table c c.type) cs

    -- What `MigrateTables` does with one table. `existing` is `existingTables.Get(strings.ToUpper(name))`.
    unfoldable pub migrate_table : Table T → Option (Table T) → Run (List (Statement T))
    unfolding get_table_changes can_auto_migrate auto_migrate_table
    migrate_table table none = if is_empty table.columns then done else exec (create_table table)
    migrate_table table (some existing) =
        let changes = get_table_changes table existing in
        if is_empty table.columns
        then done
        else if can_auto_migrate changes
        then auto_migrate_table table changes
        else exec (drop_table table.name) ⟫ exec (create_table table)
