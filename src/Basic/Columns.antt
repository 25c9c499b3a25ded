-- ===== src/Basic/Columns.antt =====
-- plugins/transformer/basic/client/recordupdater/record_updater.go: the changes of a record's columns.
use cloudquery_fork4devin.Base.{
  ℕ, suc, Bool, true, false, not, String, List, [], ◌∷◌, map, Option, none, some, Result, ok, err,
  ◌>>=◌, length, is_empty, contains_num, num_eq, leb, if◌then◌else◌, ◌==◌,
}
use cloudquery_fork4devin.Arrow.{Arrow, Cell}
use cloudquery_fork4devin.Basic.Spec.{uppercase}
use cloudquery_fork4devin.Basic.Updater.{
  RecordUpdater, UpdateError, column_names, cannot_remove_all_columns, invalid_position,
  cannot_set_column, bad_sensitive_columns, not_a_string_or_json_column, not_a_json_column,
}
use cloudquery_fork4devin.Basic.Names.{
  JsonColumn, split_json_columns, col_indices_by_names, json_col_indices_by_names,
}
use cloudquery_fork4devin.Basic.Tools.{Tools}
use cloudquery_fork4devin.Basic.SchemaUpdater.{
  without_indices, remove_column_indices, add_column_at_pos, add_primary_keys, change_table_name,
  rename_column,
}
use cloudquery_fork4devin.Basic.Cells.{
  build_string_column, obfuscate_column, obfuscate_json_columns, obfuscate_binary_column,
  obfuscate_entire_json_column, change_column_case, change_case_entire_json_column,
  change_case_json_columns,
}

module _ (a : Arrow) (tools : Tools a) where
  open a use {Array}

  abbrev Updated : Type 0
  Updated = Result UpdateError (RecordUpdater a)

  -- The part of `RemoveColumns` for whole columns.
  unfoldable pub remove_plain : List String → RecordUpdater a → Updated
  remove_plain plain u =
      let r = u.batch in
      if is_empty plain then ok u else elim (col_indices_by_names (column_names a r) plain) [
        | err e ↦ err e
        | ok indices ↦
            if num_eq (length indices) (length (a.columns r))
            then err cannot_remove_all_columns
            else (let s = remove_column_indices a tools indices u.schema in
                ok (record {
                  batch = a.new_record s (without_indices indices 0 (a.columns r)) (a.num_rows r);
                  schema = s;
                }))
      ]

  abbrev delete_paths : List JsonColumn → String → String
  delete_paths [] doc = doc
  delete_paths (jc ∷ jcs) doc =
      delete_paths jcs (elim (tools.json_delete doc jc.column_path) [ none ↦ doc | some new ↦ new ])

  -- `ValueStr` of a null is a text like any other here, so that a null does not stay null.
  abbrev value_str : Cell → String
  value_str none = tools.null_value_str
  value_str (some s) = s

  abbrev without_paths : List JsonColumn → Cell → Cell
  without_paths jcs c =
      if tools.json_valid (value_str c)
      then some (delete_paths jcs (value_str c))
      else some (value_str c)

  -- The loop of `RemoveColumns` over the columns with paths.
  unfoldable pub remove_paths : ℕ → List (List JsonColumn) → List Array → RecordUpdater a → Updated
  remove_paths i (jcs ∷ rest) (c ∷ cs) u =
      if is_empty jcs
      then remove_paths (suc i) rest cs u
      else elim (a.set_column u.batch i (a.json_array (map (without_paths jcs) (a.cells c)))) [
        | none ↦ err cannot_set_column
        | some r ↦ remove_paths (suc i) rest cs (record u { batch = r })
      ]
  remove_paths i _ _ u = ok u

  -- `RemoveColumns`
  unfoldable pub remove_columns : List String → RecordUpdater a → Updated
  unfolding remove_plain remove_paths
  remove_columns wanted u = do
    let (plain, json) = split_json_columns (column_names a u.batch) wanted
    u ← remove_plain plain u
    remove_paths 0 (json_col_indices_by_names (column_names a u.batch) json) (a.columns u.batch) u

  -- The columns with a new one in front of that at a position, or at the end.
  abbrev pub insert_column : ℕ → Array → ℕ → List Array → List Array
  insert_column position new i [] = if num_eq i position then new ∷ [] else []
  insert_column position new i (c ∷ cs) =
      let rest = c ∷ insert_column position new (suc i) cs in
      if num_eq i position then new ∷ rest else rest

  -- `none` is -1. Other negative positions are not among the values here.
  abbrev pub position_or_end : Option ℕ → a.RecordBatch → ℕ
  position_or_end none r = length (a.columns r)
  position_or_end (some p) r = p

  unfoldable pub add_column_to :
      a.DataType → Bool → Array → String → Option ℕ → RecordUpdater a → Updated
  add_column_to type nullable new name position u =
      let r = u.batch in
      let p = position_or_end position r in
      if not (leb p (length (a.columns r)))
      then err invalid_position
      else elim (add_column_at_pos a tools type name p nullable u.schema) [
        | err e ↦ err e
        | ok s ↦ ok (record u {
          batch = a.new_record s (insert_column p new 0 (a.columns r)) (a.num_rows r);
        })
      ]

  -- `AddLiteralStringColumn`
  unfoldable pub add_literal_string_column : String → String → Option ℕ → RecordUpdater a → Updated
  unfolding add_column_to
  add_literal_string_column name value position u =
      add_column_to a.string_type false (build_string_column a tools value (a.num_rows u.batch))
        name position u

  -- `AddTimestampColumn`
  unfoldable pub add_timestamp_column : String → Option ℕ → RecordUpdater a → Updated
  unfolding add_column_to
  add_timestamp_column name position u =
      add_column_to a.timestamp_us true (a.timestamp_array tools.now (a.num_rows u.batch)) name
        position u

  -- The loop over the columns of `ObfuscateColumns` and of `ChangeCase`. `whole` gives nothing for a
  -- type that it does not take.
  unfoldable pub update_columns :
      (Array → Option Array)
      → (List JsonColumn → Array → Array)
      → ℕ
      → List ℕ
      → List String
      → List (List JsonColumn)
      → List Array
      → Result UpdateError (List Array)
  update_columns whole paths i indices (name ∷ names) (jcs ∷ rest) (c ∷ cs) = do
    d ←
        (if contains_num indices i
          then elim (whole c) [ none ↦ err (not_a_string_or_json_column name) | some d ↦ ok d ]
          else if is_empty jcs
          then ok c
          else if not (a.is_json (a.data_type c))
          then err (not_a_json_column name)
          else ok (paths jcs c))
    ds ← update_columns whole paths (suc i) indices names rest cs
    ok (d ∷ ds)
  update_columns whole paths i indices _ _ _ = ok []

  unfoldable pub update_named :
      (Array → Option Array)
      → (List JsonColumn → Array → Array)
      → List String
      → RecordUpdater a
      → Updated
  unfolding update_columns
  update_named whole paths wanted u = do
    let r = u.batch
    let names = column_names a r
    let (plain, json) = split_json_columns names wanted
    indices ← col_indices_by_names names plain
    cols ←
        update_columns whole paths 0 indices names (json_col_indices_by_names names json)
          (a.columns r)
    ok (record u { batch = a.new_record (a.schema r) cols (a.num_rows r) })

  unfoldable pub obfuscate_whole : Array → Option Array
  obfuscate_whole c =
      if a.is_string (a.data_type c)
      then some (obfuscate_column a tools c)
      else if a.is_json (a.data_type c)
      then some (obfuscate_entire_json_column a tools c)
      else if a.is_binary (a.data_type c)
      then some (obfuscate_binary_column a tools c)
      else none

  -- `ObfuscateColumns`
  unfoldable pub obfuscate_columns : List String → RecordUpdater a → Updated
  unfolding obfuscate_whole update_named
  obfuscate_columns wanted u =
      update_named obfuscate_whole (obfuscate_json_columns a tools) wanted u

  -- `ObfuscateSensitiveColumns`; a record has a schema.
  unfoldable pub obfuscate_sensitive_columns : RecordUpdater a → Updated
  unfolding obfuscate_columns
  obfuscate_sensitive_columns u =
      elim (a.get_value (a.metadata (a.schema u.batch)) tools.sensitive_columns_key) [
        | none ↦ ok u
        | some text ↦ elim (tools.unmarshal_strings text) [
          | none ↦ err bad_sensitive_columns
          | some columns ↦ if is_empty columns then ok u else obfuscate_columns columns u
        ]
      ]

  unfoldable pub change_case_whole : (String → String) → Array → Option Array
  change_case_whole caser c =
      if a.is_string (a.data_type c)
      then some (change_column_case a tools caser c)
      else if a.is_json (a.data_type c)
      then some (change_case_entire_json_column a tools caser c)
      else none

  -- `ChangeCase`
  unfoldable pub change_case : String → List String → RecordUpdater a → Updated
  unfolding change_case_whole update_named
  change_case kind wanted u =
      let caser = if kind == uppercase then tools.to_upper else tools.to_lower in
      update_named (change_case_whole caser) (change_case_json_columns a tools caser) wanted u

  -- The record with another schema.
  abbrev with_schema : a.Schema → RecordUpdater a → RecordUpdater a
  with_schema s u = record u { batch = a.new_record s (a.columns u.batch) (a.num_rows u.batch) }

  -- `AddPrimaryKeys`, `ChangeTableName` and `RenameColumn`
  unfoldable pub update_primary_keys : List String → RecordUpdater a → Updated
  update_primary_keys pks u = add_primary_keys a tools pks u.schema >>= λ s. ok (with_schema s u)

  unfoldable pub update_table_name : String → RecordUpdater a → Updated
  update_table_name template u =
      change_table_name a tools template u.schema >>= λ s. ok (with_schema s u)

  unfoldable pub update_column_name : String → String → RecordUpdater a → Updated
  update_column_name old new u = ok (with_schema (rename_column a tools old new u.schema) u)
