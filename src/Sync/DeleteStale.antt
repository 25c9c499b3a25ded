-- ===== src/Sync/DeleteStale.antt =====
-- cli/cmd/sync_v3.go: the deletion of stale rows after the sync.
use cloudquery_fork4devin.Base.{Bool, true, false, String, List, [], ◌∷◌, Dict}
use cloudquery_fork4devin.Arrow.{Arrow}
use cloudquery_fork4devin.RecordTransformer.{Keys}
use cloudquery_fork4devin.Specs.WriteMode.{WriteMode, overwrite_delete_stale}
use cloudquery_fork4devin.TableNameChanger.{TableNameChanger, update_table_names}
use cloudquery_fork4devin.Sync.Host.{Host, delete_stale_at}
use cloudquery_fork4devin.Sync.Messages.{
  State, Status, running, ◌⟫◌, for_each, SyncDestination, send_request,
}

abbrev pub is_delete_stale : WriteMode → Bool
is_delete_stale overwrite_delete_stale = true
is_delete_stale _ = false

module _ (a : Arrow) (keys : Keys) (host : Host a) where
  -- `deleteStale`
  unfoldable pub delete_stale : String → String → String → Dict Bool → State → State × Status
  delete_stale destination source_name sync_time = for_each λ (table, _).
      send_request a keys host (delete_stale_at destination table source_name sync_time)

  -- The loop over the destinations. What is left of the tables after one goes to the next, since
  -- `UpdateTableNames` deletes from the map that it is given.
  unfoldable pub delete_all :
      String
      → String
      → TableNameChanger
      → List (SyncDestination a keys host)
      → Dict Bool
      → State
      → State × Status
  unfolding delete_stale
  delete_all source_name sync_time c [] tables s = (s, running)
  delete_all source_name sync_time c (d ∷ ds) tables s = elim (is_delete_stale d.spec.write_mode) [
    | false ↦ delete_all source_name sync_time c ds tables s
    | true ↦
        let (updated, left) = update_table_names c d.spec.name tables [] in
        delete_stale d.spec.name source_name sync_time updated s
        ⟫ delete_all source_name sync_time c ds left
  ]
