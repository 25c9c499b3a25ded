-- ===== src/Basic/Client.antt =====
-- plugins/transformer/basic/client: the closures of `NewFromSpec` (transformers/transformers.go) at
-- work, and the client (client.go).
use cloudquery_fork4devin.Base.{
  Bool, true, false, List, [], ◌∷◌, map, Option, none, some, Result, ok, err, ◌>>=◌, num_eq,
  if◌then◌else◌,
}
use cloudquery_fork4devin.Arrow.{Arrow}
use cloudquery_fork4devin.Basic.Spec.{TransformationSpec, SpecError, validate, set_defaults}
use cloudquery_fork4devin.Basic.Transformation.{
  Transformation, literal_column, timestamp_column, removal, primary_keys, obfuscation,
  sensitive_obfuscation, table_name_change, renaming, case_change, row_removal, BuildError,
  new_from_spec,
}
use cloudquery_fork4devin.Basic.Updater.{RecordUpdater, UpdateError, no_table_name, new_updater}
use cloudquery_fork4devin.Basic.Tools.{Tools}
use cloudquery_fork4devin.Basic.Columns.{
  remove_columns, add_literal_string_column, add_timestamp_column, obfuscate_columns,
  obfuscate_sensitive_columns, change_case, update_primary_keys, update_table_name,
  update_column_name,
}
use cloudquery_fork4devin.Basic.Rows.{drop_rows}
use cloudquery_fork4devin.Basic.Matcher.{TableMatcher, new_matcher, is_table_match}

-- `Transformer`
pub record Transformer : Type 0 where
  pub matcher : TableMatcher
  pub transformation : Transformation

pub data ClientError : Type 0 where
  invalid_json : ClientError
  invalid_spec : List SpecError → ClientError
  cannot_build : BuildError → ClientError

-- The loop of `New` over the transformations.
unfoldable pub build_all : List TransformationSpec → Result ClientError (List Transformer)
build_all [] = ok []
build_all (sp ∷ sps) = elim (new_from_spec sp) [
  | err e ↦ err (cannot_build e)
  | ok tr ↦ build_all sps >>= λ rest.
      ok (record { matcher = new_matcher sp.tables; transformation = tr } ∷ rest)
]

-- `New`, for the transformations that the JSON of the spec decodes to.
unfoldable pub new_client :
    Bool → Option (List TransformationSpec) → Result ClientError (List Transformer)
unfolding build_all
new_client true spec = ok []
new_client false none = err invalid_json
new_client false (some sps) = elim (validate (set_defaults sps)) [
  | [] ↦ build_all (set_defaults sps)
  | e ∷ es ↦ err (invalid_spec (e ∷ es))
]

module _ (a : Arrow) (tools : Tools a) where
  open a use {RecordBatch, Schema}

  unfoldable pub run_updater :
      Transformation → RecordUpdater a → Result UpdateError (RecordUpdater a)
  run_updater (literal_column name value) u = add_literal_string_column a tools name value none u
  run_updater (timestamp_column name) u = add_timestamp_column a tools name none u
  run_updater (removal columns) u = remove_columns a tools columns u
  run_updater (primary_keys columns) u = update_primary_keys a tools columns u
  run_updater (obfuscation columns) u = obfuscate_columns a tools columns u
  run_updater (sensitive_obfuscation columns) u = obfuscate_sensitive_columns a tools u
  run_updater (table_name_change template) u = update_table_name a tools template u
  run_updater (renaming old new) u = update_column_name a tools old new u
  run_updater (case_change kind columns) u = change_case a tools kind columns u
  run_updater (row_removal columns value) u = drop_rows a columns value u

  -- The closure that `NewFromSpec` keeps.
  unfoldable pub run : Transformation → RecordBatch → Result UpdateError RecordBatch
  unfolding run_updater
  run t r = run_updater t (new_updater a r) >>= λ u. ok u.batch

  -- `IsSchemasTableMatch`
  unfoldable pub is_schemas_table_match :
      TableMatcher → Schema → Result UpdateError (Bool × TableMatcher)
  is_schemas_table_match t s = elim (a.get_value (a.metadata s) tools.table_name_key) [
    | none ↦ err no_table_name
    | some table ↦ ok (is_table_match tools.glob t table)
  ]

  -- `makeEmptyRecord`
  unfoldable pub make_empty_record : Schema → RecordBatch
  make_empty_record s =
      a.new_record (a.new_schema (a.fields s) (a.metadata s))
        (map (λ f. a.empty_array f.type) (a.fields s)) 0

  -- `Transformer.Transform`: a record of a table that does not match passes.
  unfoldable pub transform :
      Transformer → RecordBatch → Result UpdateError (Transformer × RecordBatch)
  unfolding run is_schemas_table_match
  transform tr r = do
    (matches, m) ← is_schemas_table_match tr.matcher (a.schema r)
    let tr' = record tr { matcher = m }
    if matches then (run tr.transformation r >>= λ r'. ok (tr', r')) else ok (tr', r)

  -- `Transformer.TransformSchema`
  unfoldable pub transform_schema : Transformer → Schema → Result UpdateError (Transformer × Schema)
  unfolding run is_schemas_table_match make_empty_record
  transform_schema tr s = do
    (matches, m) ← is_schemas_table_match tr.matcher s
    let tr' = record tr { matcher = m }
    if matches
        then (run tr.transformation (make_empty_record s) >>= λ r'. ok (tr', a.schema r'))
        else ok (tr', s)

  -- The loops of `Client.Transform` and `Client.TransformSchema` over the transformers.
  unfoldable pub transform_all :
      List Transformer → RecordBatch → Result UpdateError (List Transformer × RecordBatch)
  unfolding transform
  transform_all [] r = ok ([], r)
  transform_all (t ∷ ts) r = do
    (t', r') ← transform t r
    (ts', r'') ← transform_all ts r'
    ok (t' ∷ ts', r'')

  unfoldable pub transform_schema_all :
      List Transformer → Schema → Result UpdateError (List Transformer × Schema)
  unfolding transform_schema
  transform_schema_all [] s = ok ([], s)
  transform_schema_all (t ∷ ts) s = do
    (t', s') ← transform_schema t s
    (ts', s'') ← transform_schema_all ts s'
    ok (t' ∷ ts', s'')

  -- `Client.Transform` on the records that it receives until the channel is closed: the records that
  -- it sends, and its error. A context that is done only ends it earlier.
  unfoldable pub transform_stream :
      List Transformer → List RecordBatch → List RecordBatch × Option UpdateError
  unfolding transform_all
  transform_stream ts [] = ([], none)
  transform_stream ts (r ∷ rs) = elim (transform_all ts r) [
    | err e ↦ ([], some e)
    | ok (ts', r') ↦
        let (sent, e) = transform_stream ts' rs in
        if num_eq (a.num_rows r') 0 then (sent, e) else (r' ∷ sent, e)
  ]
