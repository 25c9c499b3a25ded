-- ===== src/Basic/SchemaUpdater.antt =====
-- plugins/transformer/basic/client/schemaupdater/schema_updater.go
use cloudquery_fork4devin.Base.{
  ℕ, suc, Bool, true, false, String, List, [], ◌∷◌, map, Option, none, some, Result, ok, err,
  insert, contains_num, if◌then◌else◌, ◌==◌,
}
use cloudquery_fork4devin.Arrow.{Arrow, Field}
use cloudquery_fork4devin.Basic.Updater.{
  UpdateError, cannot_add_field, no_table_name, bad_template, bad_table_schema,
  primary_key_not_found,
}
use cloudquery_fork4devin.Basic.Tools.{Tools, TableColumn}

-- The entries whose index, from `i` on, is not in a list.
abbrev pub without_indices {ℓ} : {A : Type ℓ} → List ℕ → ℕ → List A → List A
without_indices indices i [] = []
without_indices indices i (x ∷ xs) =
    let rest = without_indices indices (suc i) xs in
    if contains_num indices i then rest else x ∷ rest

module _ (a : Arrow) (tools : Tools a) where
  open a use {Schema, DataType, Metadata}

  -- `RemoveColumnIndices`, which keeps the schema that it returns.
  unfoldable pub remove_column_indices : List ℕ → Schema → Schema
  remove_column_indices indices s =
      a.new_schema (without_indices indices 0 (a.fields s)) (a.metadata s)

  -- `AddStringColumnAtPos` and `AddTimestampColumnAtPos`, for a position that is not -1.
  unfoldable pub add_column_at_pos :
      DataType → String → ℕ → Bool → Schema → Result UpdateError Schema
  add_column_at_pos type name position nullable s =
      elim (a.add_field s position
        (record { name = name; type = type; nullable = nullable; metadata = a.no_metadata })) [
          | none ↦ err cannot_add_field
          | some s' ↦ ok s'
        ]

  abbrev renamed : String → String → Field DataType Metadata → Field DataType Metadata
  renamed old new f = if f.name == old then record f { name = new } else f

  -- `RenameColumn`
  unfoldable pub rename_column : String → String → Schema → Schema
  rename_column old new s = a.new_schema (map (renamed old new) (a.fields s)) (a.metadata s)

  -- `ChangeTableName`
  unfoldable pub change_table_name : String → Schema → Result UpdateError Schema
  change_table_name template s = elim (a.get_value (a.metadata s) tools.table_name_key) [
    | none ↦ err no_table_name
    | some old ↦ elim (tools.execute_template template old) [
      | none ↦ err bad_template
      | some new ↦
          let m = insert tools.table_name_key new (a.to_map (a.metadata s)) in
          ok (a.new_schema (a.fields s) (a.metadata_from m))
    ]
  ]

  -- `table.Columns.Get(newPk)` and the write through the pointer: the first column of the name.
  abbrev pub set_primary_key :
      String → List (TableColumn tools.Rest) → Option (List (TableColumn tools.Rest))
  set_primary_key pk [] = none
  set_primary_key pk (c ∷ cs) =
      let rest = set_primary_key pk cs in
      if c.name == pk
      then some (record c { primary_key = true } ∷ cs)
      else elim rest [ none ↦ none | some ds ↦ some (c ∷ ds) ]

  unfoldable pub set_primary_keys :
      List String
      → List (TableColumn tools.Rest)
      → Result UpdateError (List (TableColumn tools.Rest))
  set_primary_keys [] cs = ok cs
  set_primary_keys (pk ∷ pks) cs = elim (set_primary_key pk cs) [
    | none ↦ err (primary_key_not_found pk)
    | some ds ↦ set_primary_keys pks ds
  ]

  abbrev pub not_unique : TableColumn tools.Rest → TableColumn tools.Rest
  not_unique c = record c { unique = false }

  -- `AddPrimaryKeys`
  unfoldable pub add_primary_keys : List String → Schema → Result UpdateError Schema
  unfolding set_primary_keys
  add_primary_keys pks s = elim (tools.table_of_schema s) [
    | none ↦ err bad_table_schema
    | some table ↦ elim (set_primary_keys pks (tools.table_columns table)) [
      | err e ↦ err e
      | ok cs ↦ ok (tools.to_arrow_schema (tools.set_columns table (map not_unique cs)))
    ]
  ]
