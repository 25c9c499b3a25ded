-- ===== src/Destinations/Sqlite/Refused.antt =====
-- A migration of SQLite that is refused.
use cloudquery_fork4devin.Base.{
  ◌≡◌, refl, Bool, true, false, String, List, [], ◌∷◌, map, Option, some, Dict, Member, here, there,
  is_empty, Bool-cases, inl, inr,
}
use cloudquery_fork4devin.Destinations.Sdk.{Database, Table, MigrateTable, Sdk}
use cloudquery_fork4devin.Destinations.Run.{Run, checked}
use cloudquery_fork4devin.Destinations.Sqlite.{ColumnInfo, Statement}
use cloudquery_fork4devin.Destinations.Sqlite.Migrate.{
  can_auto_migrate, is_safe, refuses, non_auto_migratable_tables, safe_tables_of, migrate_tables,
  sqlite_tables, normalize_tables,
}

checked-refused :
    {S : Type 0} (names : List String) (f : Run S) (s : S)
    → is_empty names ≡ false
    → checked names f s ≡ (s, false)
checked-refused [] f s e = cc
checked-refused (name ∷ names) f s e = refl

module _ (k : Sdk) where
  abbrev T : Type 0
  T = k.DataType

  refused-listed :
      (tables existing : List (Table T)) (safe : Dict Bool) (t : Table T)
      → Member t tables
      → refuses k safe t (k.get existing t.name) ≡ true
      → is_empty (non_auto_migratable_tables k tables existing safe) ≡ false
  unfolding non_auto_migratable_tables
  refused-listed [] existing safe t m e = elim m [ ]
  refused-listed (t ∷ ts) existing safe _ here e = rw e refl
  refused-listed (u ∷ us) existing safe t (there m) e =
      elim (Bool-cases (refuses k safe u (k.get existing u.name))) [
        | inl first ↦ rw first refl
        | inr other ↦ rw other (refused-listed us existing safe t m e)
      ]

  refuses-changed :
      (safe : Dict Bool) (t old : Table T) (found : Option (Table T))
      → found ≡ some old
      → is_safe k safe t.name ≡ true
      → can_auto_migrate k (k.get_changes old t) ≡ false
      → refuses k safe t found ≡ true
  unfolding refuses
  refuses-changed safe t old found e safely changed = rw (e, safely, changed) refl

  -- Where a table is in the database, its last message is not forced, and the changes that the check
  -- asks for, which lead from it to the one in the database, cannot be migrated, the whole migration
  -- fails and the database is given no statement, for this table or for another, whatever the other
  -- messages are.
  pub migrate_tables-refused :
      (db : Database (Statement k)) (query : String → Option (List ColumnInfo))
      (msgs : List (MigrateTable T)) (existing : List (Table T)) (t old : Table T)
      (log : List (Statement k))
      → sqlite_tables k query (normalize_tables k (map (λ m. m.table) msgs)) ≡ some existing
      → Member t (normalize_tables k (map (λ m. m.table) msgs))
      → k.get existing t.name ≡ some old
      → is_safe k (safe_tables_of k msgs []) t.name ≡ true
      → can_auto_migrate k (k.get_changes old t) ≡ false
      → migrate_tables k db query msgs log ≡ (log, false)
  unfolding migrate_tables
  migrate_tables-refused db query msgs existing t old log read m found safely changed =
      let tables = normalize_tables k (map (λ m. m.table) msgs) in
      let safe = safe_tables_of k msgs [] in
      rw read (
        checked-refused (non_auto_migratable_tables k tables existing safe) _ log (
          refused-listed tables existing safe t m
            (refuses-changed safe t old (k.get existing t.name) found safely changed)))
