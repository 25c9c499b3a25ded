-- ===== src/RecordTransformer.antt =====
-- cli/internal/transformer/transformer.go: the columns that the CLI adds to every record, and the
-- constraints that it removes.
pub mod Constraints
pub mod Shape
mod Examples
use cloudquery_fork4devin.Base.{
  ℕ, suc, Bool, true, false, ◌&&◌, ◌||◌, not, String, List, [], ◌∷◌, ◌++◌, map, Option, none, some,
  Dict, lookup, insert, delete, is_some, if◌then◌else◌, ◌==◌,
}
use cloudquery_fork4devin.Arrow.{Arrow, Field, find_field}

abbrev pub cq_sync_time : String
cq_sync_time = "_cq_sync_time"

abbrev pub cq_source_name : String
cq_source_name = "_cq_source_name"

abbrev pub cq_id_column_name : String
cq_id_column_name = "_cq_id"

abbrev pub cq_sync_group_id : String
cq_sync_group_id = "_cq_sync_group_id"

-- plugin-sdk's `schema.MetadataPrimaryKey`, `MetadataUnique` and `MetadataTrue`: the keys and the
-- value are that package's.
pub record Keys : Type 0 where
  pub primary_key : String
  pub unique : String
  pub true_value : String

module _ (a : Arrow) (keys : Keys) where
  open a use {DataType, Metadata, Schema, Array, RecordBatch, Time}

  pub record Transformer : Type 0 where
    pub source_name : String
    pub with_source_name : Bool
    pub sync_time : Time
    pub with_sync_time : Bool
    pub internal_columns : ℕ
    pub remove_pks : Bool
    pub remove_unique_constraints : Bool
    pub cq_id_primary_key : Bool
    pub with_sync_group_id : Bool
    pub sync_group_id : String
    pub cq_columns_not_null : Bool

  -- `RecordTransformerOption`, by the function that makes it.
  pub data TransformerOption : Type 0 where
    with_source_name_column : String → TransformerOption
    with_sync_time_column : Time → TransformerOption
    with_sync_group_id_column : String → TransformerOption
    with_remove_pks with_remove_unique_constraints : TransformerOption
    with_cq_id_primary_key with_cq_columns_not_null : TransformerOption

  unfoldable pub apply : TransformerOption → Transformer → Transformer
  apply (with_source_name_column name) t = record t {
    source_name = name;
    with_source_name = true;
    internal_columns = suc t.internal_columns;
  }
  apply (with_sync_time_column time) t = record t {
    sync_time = time;
    with_sync_time = true;
    internal_columns = suc t.internal_columns;
  }
  apply (with_sync_group_id_column id) t = record t {
    with_sync_group_id = true;
    sync_group_id = id;
    internal_columns = suc t.internal_columns;
  }
  apply with_remove_pks t = record t { remove_pks = true }
  apply with_remove_unique_constraints t = record t { remove_unique_constraints = true }
  apply with_cq_id_primary_key t = record t { cq_id_primary_key = true }
  apply with_cq_columns_not_null t = record t { cq_columns_not_null = true }

  abbrev pub zero_transformer : Transformer
  zero_transformer = record {
    source_name = "";
    with_source_name = false;
    sync_time = a.zero_time;
    with_sync_time = false;
    internal_columns = 0;
    remove_pks = false;
    remove_unique_constraints = false;
    cq_id_primary_key = false;
    with_sync_group_id = false;
    sync_group_id = "";
    cq_columns_not_null = false;
  }

  unfoldable pub apply_all : List TransformerOption → Transformer → Transformer
  apply_all [] t = t
  apply_all (o ∷ os) t = apply_all os (apply o t)

  -- `NewRecordTransformer`
  unfoldable pub new_record_transformer : List TransformerOption → Transformer
  unfolding apply_all apply
  new_record_transformer opts = apply_all opts zero_transformer

  abbrev pub when_absent :
      Bool → Schema → String → Field DataType Metadata → List (Field DataType Metadata)
  when_absent wanted sc name f = if wanted && not (a.has_field sc name) then f ∷ [] else []

  -- The fields that `TransformSchema` puts in front.
  unfoldable pub added_fields : Transformer → Schema → List (Field DataType Metadata)
  added_fields t sc =
      when_absent t.with_sync_time sc cq_sync_time (record {
        name = cq_sync_time;
        type = a.timestamp_us;
        nullable = not t.cq_columns_not_null;
        metadata = a.no_metadata;
      })
      ++ (when_absent t.with_source_name sc cq_source_name (record {
        name = cq_source_name;
        type = a.string_type;
        nullable = not t.cq_columns_not_null;
        metadata = a.no_metadata;
      })
          ++ when_absent t.with_sync_group_id sc cq_sync_group_id (record {
            name = cq_sync_group_id;
            type = a.string_type;
            nullable = false;
            metadata = a.metadata_from ((keys.primary_key, keys.true_value) ∷ []);
          }))

  abbrev pub delete_if : Bool → String → Dict String → Dict String
  delete_if wanted k m = if is_some (lookup k m) && wanted then delete k m else m

  abbrev pub insert_if : Bool → String → String → Dict String → Dict String
  insert_if wanted k v m = if wanted then insert k v m else m

  -- The body of the loop over the fields.
  unfoldable pub transform_field : Transformer → Field DataType Metadata → Field DataType Metadata
  transform_field t f =
      let md = delete_if t.remove_unique_constraints keys.unique (a.to_map f.metadata) in
      let md = delete_if t.remove_pks keys.primary_key md in
      let md =
        insert_if (f.name == cq_id_column_name && t.cq_id_primary_key) keys.primary_key
          keys.true_value md in
      record f { metadata = a.metadata_from md }

  unfoldable pub transform_schema : Transformer → Schema → Schema
  transform_schema t sc =
      a.new_schema (map (transform_field t) (added_fields t sc ++ a.fields sc)) (a.metadata sc)

  -- A replacement that fails leaves the record.
  abbrev pub replaced : Option RecordBatch → RecordBatch → RecordBatch
  replaced none r = r
  replaced (some r') r = r'

  -- `replaceTimestampField`: an error is `none`. The panic of `FieldIndices(...)[0]` is not reached,
  -- since the field is there when it is called.
  unfoldable pub replace_timestamp_field : Time → Schema → RecordBatch → ℕ → Option RecordBatch
  replace_timestamp_field time sc r n = elim (find_field cq_sync_time (a.fields sc)) [
    | none ↦ none
    | some f ↦
        if a.is_timestamp f.type
        then elim (a.timestamp_array_of time f.type n) [
          | none ↦ none
          | some column ↦ a.replace_field r cq_sync_time column
        ]
        else some r
  ]

  -- One block of `Transform`: a column is added where the field is absent; where it is there, it is
  -- replaced in the cloud only.
  unfoldable pub add_column :
      Bool
      → Bool
      → Bool
      → Array
      → Option RecordBatch
      → List Array × RecordBatch
      → List Array × RecordBatch
  add_column wanted present cloud column replacement (cols, r) =
      if wanted && (not present || cloud)
      then (if not present then (cols ++ column ∷ [], r) else (cols, replaced replacement r))
      else (cols, r)

  -- `Transform`. `cloud` is `env.IsCloud()`.
  unfoldable pub transform : Transformer → Bool → RecordBatch → RecordBatch
  unfolding add_column
  transform t cloud r =
      let sc = a.schema r in
      let n = a.num_rows r in
      let (cols₁, r₁) =
        add_column t.with_sync_time (a.has_field sc cq_sync_time) cloud
          (a.timestamp_array t.sync_time n) (replace_timestamp_field t.sync_time sc r n) ([], r) in
      let (cols₂, r₂) =
        add_column t.with_source_name (a.has_field sc cq_source_name) cloud
          (a.string_from_value t.source_name n)
          (a.replace_field r₁ cq_source_name (a.string_from_value t.source_name n)) (cols₁, r₁) in
      let (cols₃, r₃) =
        add_column t.with_sync_group_id (a.has_field sc cq_sync_group_id) cloud
          (a.string_from_value t.sync_group_id n)
          (a.replace_field r₂ cq_sync_group_id (a.string_from_value t.sync_group_id n))
          (cols₂, r₂) in
      a.new_record (transform_schema t sc) (cols₃ ++ a.columns r₃) n
