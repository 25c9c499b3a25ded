-- ===== src/Destinations/Postgres/Changes.antt =====
-- plugins/destination/postgresql/client/migrate.go: the migration.
use cloudquery_fork4devin.Base.{
  contains, Bool, true, false, ◌&&◌, ◌||◌, not, String, List, [], ◌∷◌, Option, none, some, Dict,
  insert, lookup, if◌then◌else◌, ◌==◌,
}
use cloudquery_fork4devin.Destinations.Sdk.{
  ChangeType, Table, Change, MigrateTable, Sdk, unknown, add, update, remove,
  remove_unique_constraint, move_to_cq_only,
}
use cloudquery_fork4devin.Destinations.Postgres.Sql.{cq_id}

-- Whether a primary key is added to a column, or taken from it, with its type kept.
module _ (k : Sdk) (same_type : k.DataType → k.DataType → Bool) where
  abbrev T : Type 0
  T = k.DataType

  abbrev adds_pk : Change T → ChangeType → Bool
  adds_pk c update =
      same_type c.current.type c.previous.type
      && (c.current.primary_key && not c.previous.primary_key)
  adds_pk c _ = false

  abbrev removes_pk : Change T → ChangeType → Bool
  removes_pk c update =
      same_type c.current.type c.previous.type
      && (not c.current.primary_key && c.previous.primary_key)
  removes_pk c _ = false

  abbrev is_move : ChangeType → Bool
  is_move move_to_cq_only = true
  is_move _ = false

  -- The names of the columns of the changes that a test holds of.
  abbrev names_where : (Change T → Bool) → List (Change T) → List String
  names_where p [] = []
  names_where p (c ∷ cs) = let rest = names_where p cs in if p c then c.column_name ∷ rest else rest

  abbrev any_move : List (Change T) → Bool
  any_move [] = false
  any_move (c ∷ cs) = is_move c.type || any_move cs

  abbrev is_cq_id_alone : List String → Bool
  is_cq_id_alone (name ∷ []) = name == cq_id
  is_cq_id_alone _ = false

  -- The second loop of `canAutoMigrate`, which a removed `rowid` ends at once.
  abbrev can_auto_migrate_change :
      Bool → List String → List String → Change T → ChangeType → Bool → Bool
  can_auto_migrate_change cq adding removing c remove_unique_constraint rest = rest
  can_auto_migrate_change cq adding removing c move_to_cq_only rest = rest
  can_auto_migrate_change cq adding removing c add rest =
      not (c.current.primary_key || c.current.not_null) && rest
  can_auto_migrate_change cq adding removing c remove rest =
      if c.previous.primary_key || c.previous.not_null then c.column_name == "rowid" else rest
  can_auto_migrate_change cq adding removing c update rest =
      cq && (is_cq_id_alone adding || contains removing c.column_name) && rest
  can_auto_migrate_change cq adding removing c unknown rest = false

  unfoldable pub can_auto_migrate_from : Bool → List String → List String → List (Change T) → Bool
  can_auto_migrate_from cq adding removing [] = true
  can_auto_migrate_from cq adding removing (c ∷ cs) =
      can_auto_migrate_change cq adding removing c c.type
        (can_auto_migrate_from cq adding removing cs)

  -- `canAutoMigrate`
  unfoldable pub can_auto_migrate : List (Change T) → Bool
  unfolding can_auto_migrate_from
  can_auto_migrate cs =
      can_auto_migrate_from (any_move cs) (names_where (λ c. adds_pk c c.type) cs)
        (names_where (λ c. removes_pk c c.type) cs) cs

  -- What `nonAutoMigratableTables` refuses.
  abbrev pub is_safe : Dict Bool → String → Bool
  is_safe safe_tables name = elim (lookup name safe_tables) [ none ↦ false | some b ↦ b ]

  unfoldable pub refuses : Dict Bool → Table T → Option (Table T) → Bool
  unfolding can_auto_migrate
  refuses safe_tables t none = false
  refuses safe_tables t (some existing) =
      is_safe safe_tables t.name && not (can_auto_migrate (k.get_changes t existing))

  -- `nonAutoMigratableTables`, the names
  unfoldable pub non_auto_migratable_tables :
      List (Table T) → List (Table T) → Dict Bool → List String
  unfolding refuses
  non_auto_migratable_tables [] existing safe_tables = []
  non_auto_migratable_tables (t ∷ ts) existing safe_tables =
      let rest = non_auto_migratable_tables ts existing safe_tables in
      if refuses safe_tables t (k.get existing t.name) then t.name ∷ rest else rest

  abbrev pub safe_tables_of : List (MigrateTable T) → Dict Bool → Dict Bool
  safe_tables_of [] safe_tables = safe_tables
  safe_tables_of (m ∷ ms) safe_tables =
      safe_tables_of ms (insert m.table.name (not m.migrate_force) safe_tables)

  -- `tablesFromMessages`: the first table of each name.
  unfoldable pub tables_from_messages : List (MigrateTable T) → List String → List (Table T)
  tables_from_messages [] seen = []
  tables_from_messages (m ∷ ms) seen =
      let skipped = tables_from_messages ms seen in
      let kept = tables_from_messages ms (m.table.name ∷ seen) in
      if contains seen m.table.name then skipped else m.table ∷ kept
