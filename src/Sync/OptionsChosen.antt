-- ===== src/Sync/OptionsChosen.antt =====
-- What a destination's record transformer adds and removes, by the spec of the destination.
use cloudquery_fork4devin.Base.{
  if◌then◌else◌, ◌≡◌, Bool, true, not, ◌||◌, ◌&&◌, String, ◌==◌, arith,
}
use cloudquery_fork4devin.Arrow.{Arrow}
use cloudquery_fork4devin.Specs.Destination.{Destination, rendered_sync_group_id}
use cloudquery_fork4devin.RecordTransformer.{
  Keys, Transformer, new_record_transformer, apply_all, apply,
}
use cloudquery_fork4devin.Sync.Options.{destination_options, is_append, is_cqid}

module _ (a : Arrow) (keys : Keys) where
  abbrev pub destination_transformer :
      String → a.Time → (String → String) → String → Bool → Destination → Transformer a keys
  destination_transformer source_name sync_time format uid not_null d =
      new_record_transformer a keys
        (destination_options a keys source_name sync_time format uid not_null d)

  -- A destination's record transformer removes the primary keys in append mode and where the key is
  -- the id, and unique constraints in append mode alone; the id becomes the key only outside append
  -- mode; it adds the name of the source, the time of the sync and, where the spec names a sync group, that
  -- one as `RenderedSyncGroupId` gives it.
  pub destination_options_lem :
      (source_name : String) (sync_time : a.Time) (format : String → String) (uid : String)
      (not_null : Bool) (d : Destination)
      → let t = destination_transformer source_name sync_time format uid not_null d in
        (t.remove_pks ≡ (is_append d.write_mode || is_cqid d.pk_mode))
        × (t.remove_unique_constraints ≡ is_append d.write_mode)
        × (t.cq_id_primary_key ≡ (not (is_append d.write_mode) && is_cqid d.pk_mode))
        × (t.with_source_name ≡ true)
        × (t.source_name ≡ source_name)
        × (t.with_sync_time ≡ true)
        × (t.sync_time ≡ sync_time)
        × (t.with_sync_group_id ≡ not (d.sync_group_id == ""))
        × (t.sync_group_id
            ≡ (if d.sync_group_id == "" then "" else rendered_sync_group_id format uid d))
        × (t.cq_columns_not_null ≡ not_null)
  unfolding destination_options new_record_transformer apply_all apply
  destination_options_lem source_name sync_time format uid not_null d = (
    ground arith,
    ground arith,
    ground arith,
    ground arith,
    ground arith,
    ground arith,
    ground arith,
    ground arith,
    ground arith,
    ground arith,
  )
