-- ===== src/Sync/Host.antt =====
-- What surrounds the sync of cli/cmd/sync_v3.go: the encodings of plugin-pb-go and the streams to the
-- destinations, whose answers may depend on all that was sent before.
use cloudquery_fork4devin.Base.{Bool, String, List, Option}
use cloudquery_fork4devin.Arrow.{Arrow}

-- What is sent to a destination, by its name.
pub data Delivery : Type 0 where
  -- a record, to the pipeline of transformers
  insert_to : (destination bytes : String) → Delivery
  -- write requests; `filter` is the related tables and the where clause of a deletion
  delete_record_at : (destination table filter : String) → Delivery
  migrate_at : (destination : String) (force : Bool) (bytes : String) → Delivery
  delete_stale_at : (destination table source_name sync_time : String) → Delivery

pub data SendResult : Type 0 where
  accepted pipeline_closed refused : SendResult

-- What the sync reads of a `schema.Table`.
pub record TableInfo : Type 0 where
  pub name : String
  pub is_incremental : Bool
  pub parent : Option String

module _ (a : Arrow) where
  pub record Host : Type 0 where
    pub record_of_bytes : String → Option a.RecordBatch
    pub record_to_bytes : a.RecordBatch → Option String
    pub schema_of_bytes : String → Option a.Schema
    pub schema_to_bytes : a.Schema → Option String
    pub table_of_schema : a.Schema → Option TableInfo
    pub table_name_key : String
    -- `Send` on a stream, after what was sent
    pub send : List Delivery → Delivery → SendResult
    -- `env.IsCloud`
    pub is_cloud : Bool
