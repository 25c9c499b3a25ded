-- ===== src/Basic/Updater.antt =====
-- plugins/transformer/basic/client/recordupdater/record_updater.go: the state of an updater, and the
-- ways in which a change fails.
use cloudquery_fork4devin.Base.{String, List, map}
use cloudquery_fork4devin.Arrow.{Arrow}

pub data UpdateError : Type 0 where
  columns_not_found : List String → UpdateError
  cannot_remove_all_columns invalid_position failed_to_concatenate cannot_set_column : UpdateError
  cannot_add_field no_table_name bad_template bad_sensitive_columns bad_table_schema : UpdateError
  not_a_string_or_json_column not_a_json_column primary_key_not_found : String → UpdateError

module _ (a : Arrow) where
  -- `RecordUpdater`: the record, and the schema of its `SchemaUpdater`.
  pub record RecordUpdater : Type 0 where
    pub batch : a.RecordBatch
    pub schema : a.Schema

  -- `New`
  unfoldable pub new_updater : a.RecordBatch → RecordUpdater
  new_updater r = record { batch = r; schema = a.schema r }

  -- `ColumnName(i)` of each column: a record has a column for each field.
  abbrev pub column_names : a.RecordBatch → List String
  column_names r = map (λ f. f.name) (a.fields (a.schema r))
