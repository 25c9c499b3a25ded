-- ===== src/Basic/Transformation.antt =====
-- plugins/transformer/basic/client/transformers/transformers.go: `NewFromSpec`. A transformation is
-- the closure that it returns, with what it holds.
use cloudquery_fork4devin.Base.{
  String, List, Option, none, some, Result, ok, err, ◌||◌, if◌then◌else◌, ◌==◌,
}
use cloudquery_fork4devin.Basic.Spec.{
  TransformationSpec, remove_columns, add_primary_keys, obfuscate_columns, add_column,
  add_current_timestamp_column, obfuscate_sensitive_columns, change_table_names, rename_column,
  lowercase, uppercase, drop_rows,
}

pub data Transformation : Type 0 where
  literal_column : (name value : String) → Transformation
  timestamp_column : (name : String) → Transformation
  removal primary_keys obfuscation sensitive_obfuscation : (columns : List String) → Transformation
  table_name_change : (template : String) → Transformation
  renaming : (old_name new_name : String) → Transformation
  case_change : (kind : String) (columns : List String) → Transformation
  row_removal : (columns : List String) (value : Option String) → Transformation

pub data BuildError : Type 0 where
  unknown_kind : String → BuildError
  -- the panic of `*sp.Value` for a nil value
  nil_value : BuildError

-- `*sp.Value`
abbrev pub dereference : {A : Type 0} → Option String → (String → A) → Result BuildError A
dereference none f = err nil_value
dereference (some v) f = ok (f v)

unfoldable pub new_from_spec : TransformationSpec → Result BuildError Transformation
new_from_spec sp =
    if sp.kind == add_column
    then dereference sp.value (literal_column sp.name)
    else if sp.kind == add_current_timestamp_column
    then ok (timestamp_column sp.name)
    else if sp.kind == remove_columns
    then ok (removal sp.columns)
    else if sp.kind == add_primary_keys
    then ok (primary_keys sp.columns)
    else if sp.kind == obfuscate_columns
    then ok (obfuscation sp.columns)
    else if sp.kind == change_table_names
    then ok (table_name_change sp.new_table_name_template)
    else if sp.kind == rename_column
    then dereference sp.value (renaming sp.name)
    else if sp.kind == obfuscate_sensitive_columns
    then ok (sensitive_obfuscation sp.columns)
    else if sp.kind == uppercase || sp.kind == lowercase
    then ok (case_change sp.kind sp.columns)
    else if sp.kind == drop_rows
    then ok (row_removal sp.columns sp.value)
    else err (unknown_kind sp.kind)
