-- ===== src/RecordTransformer/Examples.antt =====
-- Tests of the model of the record transformer, and its theorems at concrete inputs.
use cloudquery_fork4devin.Base.{map, ◌≡◌, refl, true, false, [], ◌∷◌, none, some, lookup, length}
use cloudquery_fork4devin.Arrow.Plain.{
  string_t, plain, PlainField, PlainSchema, Batch, plain-MetadataLaws, plain-SchemaLaws,
  plain-RecordLaws, plain-ReplaceLaws,
}
use cloudquery_fork4devin.RecordTransformer.{
  Keys, Transformer, with_source_name_column, with_sync_time_column, with_remove_pks,
  with_cq_id_primary_key, new_record_transformer, transform_field, transform_schema, add_column,
  transform, apply, apply_all, replace_timestamp_field,
}
use cloudquery_fork4devin.RecordTransformer.Constraints.{transform_field_lem}
use cloudquery_fork4devin.RecordTransformer.Shape.{transform_schema-names, transform-width}

abbrev keys : Keys
keys = record {
  primary_key = "cq:extension:primary_key";
  unique = "cq:extension:unique";
  true_value = "true";
}

abbrev id_field : PlainField
id_field = record {
  name = "_cq_id";
  type = string_t;
  nullable = false;
  metadata = ("cq:extension:unique", "true") ∷ [];
}

abbrev source_field : PlainField
source_field = record { name = "_cq_source_name"; type = string_t; nullable = true; metadata = [] }

abbrev old_schema : PlainSchema
old_schema = record { fields = id_field ∷ source_field ∷ []; metadata = [] }

abbrev batch : Batch
batch = record {
  schema = old_schema;
  columns =
      record { type = string_t; cells = some "1" ∷ some "2" ∷ [] }
      ∷ record { type = string_t; cells = none ∷ none ∷ [] }
      ∷ [];
  rows = 2;
}

abbrev transformer : Transformer plain keys
transformer = new_record_transformer plain keys (
    with_source_name_column "aws"
    ∷ with_sync_time_column "2024"
    ∷ with_remove_pks
    ∷ with_cq_id_primary_key
    ∷ [])

added_column : length (transform plain keys transformer true batch).columns ≡ 3
unfolding transform new_record_transformer apply_all apply add_column replace_timestamp_field
added_column = refl

transform_field_lem_example :
    lookup "cq:extension:primary_key" (transform_field plain keys transformer id_field).metadata
    ≡ some "true"
unfolding new_record_transformer apply_all apply
transform_field_lem_example =
    (transform_field_lem plain keys plain-MetadataLaws transformer id_field
      "cq:extension:primary_key").0

transform_schema-names_example :
    map (λ f. f.name) (transform_schema plain keys transformer old_schema).fields
    ≡ "_cq_sync_time" ∷ "_cq_id" ∷ "_cq_source_name" ∷ []
unfolding new_record_transformer apply_all apply
transform_schema-names_example =
    transform_schema-names plain keys plain-SchemaLaws plain-RecordLaws plain-ReplaceLaws
      transformer old_schema

transform-width_example :
    length (transform plain keys transformer true batch).columns
    ≡ length (transform plain keys transformer true batch).schema.fields
transform-width_example =
    transform-width plain keys plain-SchemaLaws plain-RecordLaws plain-ReplaceLaws transformer true
      batch refl
