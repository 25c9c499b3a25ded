-- ===== src/Sync/Options.antt =====
-- cli/cmd/sync_v3.go: the options of a destination's record transformer, and the name under which the
-- records of a source are written.
use cloudquery_fork4devin.Base.{
  Bool, true, false, not, String, List, [], ◌∷◌, ◌++◌, Option, none, some, concat, if◌then◌else◌,
  ◌==◌,
}
use cloudquery_fork4devin.Arrow.{Arrow}
use cloudquery_fork4devin.Specs.Destination.{Destination, rendered_sync_group_id}
use cloudquery_fork4devin.Specs.WriteMode.{WriteMode, append}
use cloudquery_fork4devin.Specs.PkMode.{PkMode, cqid}
use cloudquery_fork4devin.RecordTransformer.{
  Keys, TransformerOption, with_source_name_column, with_sync_time_column,
  with_sync_group_id_column, with_remove_pks, with_remove_unique_constraints,
  with_cq_id_primary_key, with_cq_columns_not_null,
}

-- `shard`, with its numbers as `%d` writes them.
pub record Shard : Type 0 where
  pub num : String
  pub total : String

-- The source name of the records of a shard.
unfoldable pub shard_source_name : String → Option Shard → String
shard_source_name name none = name
shard_source_name name (some s) = concat (name ∷ "_" ∷ s.num ∷ "_" ∷ s.total ∷ [])

abbrev pub is_append : WriteMode → Bool
is_append append = true
is_append _ = false

abbrev pub is_cqid : PkMode → Bool
is_cqid cqid = true
is_cqid _ = false

module _ (a : Arrow) (keys : Keys) where
  abbrev when : Bool → List (TransformerOption a keys) → List (TransformerOption a keys)
  when b os = if b then os else []

  -- The options of a destination's record transformer. `format` is that of the sync time.
  unfoldable pub destination_options :
      String
      → a.Time
      → (String → String)
      → String
      → Bool
      → Destination
      → List (TransformerOption a keys)
  destination_options source_name sync_time format uid cq_columns_not_null d =
      with_source_name_column source_name
      ∷ with_sync_time_column sync_time
      ∷ (when cq_columns_not_null (with_cq_columns_not_null ∷ [])
          ++ (when (not (d.sync_group_id == ""))
                (with_sync_group_id_column (rendered_sync_group_id format uid d) ∷ [])
              ++ (if is_append d.write_mode
                  then with_remove_pks ∷ with_remove_unique_constraints ∷ []
                  else when (is_cqid d.pk_mode) (with_remove_pks ∷ with_cq_id_primary_key ∷ []))))
