-- ===== src/Sync/Messages.antt =====
-- cli/cmd/sync_v3.go: the loop over the messages of the source.
use cloudquery_fork4devin.Base.{
  ℕ, ◌+◌, ◌%◌, ◌^◌, Bool, true, false, ◌&&◌, ◌||◌, String, List, [], ◌∷◌, ◌++◌, Option, none, some,
  Result, ok, err, Dict, lookup, insert, is_some, if◌then◌else◌,
}
use cloudquery_fork4devin.Arrow.{Arrow}
use cloudquery_fork4devin.Specs.Destination.{Destination}
use cloudquery_fork4devin.Specs.MigrateMode.{MigrateMode, forced}
use cloudquery_fork4devin.RecordTransformer.{Keys, Transformer, transform, transform_schema}
use cloudquery_fork4devin.TableNameChanger.{
  TableNameChanger, LearnError, learn_table_name_change, update_table_name,
}
use cloudquery_fork4devin.Sync.Host.{
  Host, Delivery, insert_to, delete_record_at, migrate_at, SendResult, accepted, pipeline_closed,
  refused, TableInfo,
}

-- `SyncRunTableProgressValue`. The counters are words of 64 bits, read here without a sign.
pub record TableProgress : Type 0 where
  pub errors : ℕ
  pub rows : ℕ

-- A `Sync_Response`, by its message.
pub data Message : Type 0 where
  insert_message : (bytes : String) → Message
  delete_record_message : (table filter : String) → Message
  migrate_message : (bytes : String) → Message
  error_message : (table : String) → Message
  unknown_message : Message

pub data SyncError : Type 0 where
  bad_record bad_schema bad_table cannot_encode cannot_transform cannot_learn : SyncError
  send_failed receive_failed unknown_type : SyncError

-- How the goroutine that reads the source goes on: `stopped` is its return without an error when a
-- pipeline is closed.
pub data Status : Type 0 where
  running stopped : Status
  failed : SyncError → Status

pub record State : Type 0 where
  pub source_tables : Dict Bool
  pub skipped_from_delete_stale : Dict Bool
  pub tables_for_delete_stale : Dict Bool
  pub stats_per_table : Dict TableProgress
  pub total_resources : ℕ
  pub changer : TableNameChanger
  -- what the destinations accepted
  pub log : List Delivery

-- The rest of a handler, where it has not ended.
infixl 5 ◌⟫◌
abbrev pub ◌⟫◌ : State × Status → (State → State × Status) → State × Status
(s, running) ⟫ k = k s
(s, stopped) ⟫ k = (s, stopped)
(s, failed e) ⟫ k = (s, failed e)

abbrev pub for_each : {A : Type 0} → (A → State → State × Status) → List A → State → State × Status
for_each f [] s = (s, running)
for_each f (x ∷ xs) s = f x s ⟫ for_each f xs

-- An error is returned.
abbrev pub or_fail :
    {A : Type 0} → Option A → SyncError → (A → State → State × Status) → State → State × Status
or_fail none e k s = (s, failed e)
or_fail (some x) e k s = k x s

abbrev pub with_schema :
    Result SyncError String → (String → State → State × Status) → State → State × Status
with_schema (err e) k s = (s, failed e)
with_schema (ok bytes) k s = k bytes s

-- What becomes of a delivery. The stream of write requests never tells that a pipeline is closed.
abbrev pub answer : SendResult → Delivery → State → State × Status
answer accepted d s = (record s { log = s.log ++ d ∷ [] }, running)
answer pipeline_closed d s = (s, stopped)
answer refused d s = (s, failed send_failed)

abbrev pub answer_request : SendResult → Delivery → State → State × Status
answer_request accepted d s = (record s { log = s.log ++ d ∷ [] }, running)
answer_request _ d s = (s, failed send_failed)

abbrev pub learned : Result LearnError TableNameChanger → State → State × Status
learned (err e) s = (s, failed cannot_learn)
learned (ok c) s = (record s { changer = c }, running)

abbrev pub progress_of : Option TableProgress → TableProgress
progress_of none = record { errors = 0; rows = 0 }
progress_of (some p) = p

abbrev name_or_empty : Option String → String
name_or_empty none = ""
name_or_empty (some n) = n

unfoldable pub count_rows : String → ℕ → State → State
count_rows table n s =
    let p = progress_of (lookup table s.stats_per_table) in
    record s {
      total_resources = (s.total_resources + n) % 2 ^ 64;
      source_tables = insert table true s.source_tables;
      stats_per_table = insert table (record p { rows = (p.rows + n) % 2 ^ 64 }) s.stats_per_table;
    }

unfoldable pub count_error : String → State → State
count_error table s =
    let p = progress_of (lookup table s.stats_per_table) in
    record s {
      stats_per_table =
          insert table (record p { errors = (p.errors + 1) % 2 ^ 64 }) s.stats_per_table;
    }

abbrev pub parent_skipped : Option String → Dict Bool → Bool
parent_skipped none skipped = false
parent_skipped (some parent) skipped = is_some (lookup parent skipped)

-- Whether stale rows of the table are deleted after the sync.
unfoldable pub note_table : Bool → TableInfo → State → State
note_table backend table s =
    let s = record s { source_tables = insert table.name true s.source_tables } in
    if backend && (table.is_incremental || parent_skipped table.parent s.skipped_from_delete_stale)
    then record s { skipped_from_delete_stale = insert table.name true s.skipped_from_delete_stale }
    else record s { tables_for_delete_stale = insert table.name true s.tables_for_delete_stale }

abbrev is_forced : MigrateMode → Bool
is_forced forced = true
is_forced _ = false

module _ (a : Arrow) (keys : Keys) (host : Host a) where
  -- A destination with its record transformer, and with `TransformSchema` of its transformer plugins.
  pub record SyncDestination : Type 0 where
    pub spec : Destination
    pub transformer : Transformer a keys
    pub plugins : List (String → Option String)

  unfoldable pub send : Delivery → State → State × Status
  send d s = answer (host.send s.log d) d s

  unfoldable pub send_request : Delivery → State → State × Status
  send_request d s = answer_request (host.send s.log d) d s

  unfoldable pub insert_at : a.RecordBatch → SyncDestination → State → State × Status
  unfolding send
  insert_at r d =
      or_fail (host.record_to_bytes (transform a keys d.transformer host.is_cloud r)) cannot_encode
        λ bytes. send (insert_to d.spec.name bytes)

  -- `Sync_Response_Insert`
  unfoldable pub handle_insert : List SyncDestination → String → State → State × Status
  unfolding insert_at count_rows
  handle_insert ds bytes = or_fail (host.record_of_bytes bytes) bad_record λ r s.
      for_each (insert_at r) ds (
        count_rows (name_or_empty (a.get_value (a.metadata (a.schema r)) host.table_name_key))
          (a.num_rows r) s)

  -- The schema as the transformers of a destination make it, one after the other.
  abbrev pub through : List (String → Option String) → String → Option String
  through [] bytes = some bytes
  through (f ∷ fs) bytes = elim (f bytes) [ none ↦ none | some bytes' ↦ through fs bytes' ]

  unfoldable pub destination_schema : SyncDestination → a.Schema → Result SyncError String
  destination_schema d sc = elim (host.schema_to_bytes (transform_schema a keys d.transformer sc)) [
    | none ↦ err cannot_encode
    | some bytes ↦ elim (through d.plugins bytes) [
      | none ↦ err cannot_transform
      | some bytes' ↦ ok bytes'
    ]
  ]

  -- What `LearnTableNameChange` reads of the bytes of a schema.
  abbrev pub decoded_name : String → Option (Option String)
  decoded_name bytes = elim (host.schema_of_bytes bytes) [
    | none ↦ none
    | some sc ↦ some (a.get_value (a.metadata sc) host.table_name_key)
  ]

  unfoldable pub migrate_destination :
      TableInfo → a.Schema → SyncDestination → State → State × Status
  unfolding destination_schema send_request
  migrate_destination table sc d = with_schema (destination_schema d sc) λ bytes s.
      learned (learn_table_name_change s.changer d.spec.name table.name (decoded_name bytes)) s
      ⟫ send_request (migrate_at d.spec.name (is_forced d.spec.migrate_mode) bytes)

  -- `Sync_Response_MigrateTable`
  unfoldable pub handle_migrate :
      Bool → Bool → List SyncDestination → String → State → State × Status
  unfolding migrate_destination note_table
  handle_migrate backend no_migrate ds bytes = or_fail (host.schema_of_bytes bytes) bad_schema λ sc.
      or_fail (host.table_of_schema sc) bad_table λ table s.
        if no_migrate
        then (note_table backend table s, running)
        else for_each (migrate_destination table sc) ds (note_table backend table s)

  -- `createTableNameSchema`
  unfoldable pub create_table_name_schema : String → a.Schema
  create_table_name_schema table =
      a.new_schema
        (record {
          name = "_dummy";
          type = a.string_type;
          nullable = false;
          metadata = a.no_metadata;
        }
          ∷ [])
        (a.metadata_from ((host.table_name_key, table) ∷ []))

  -- `getTransformedTableNameFromSchema`, or the name that the changer has.
  abbrev pub table_name_at : SyncDestination → String → String → State → String
  table_name_at d table bytes s = elim (decoded_name bytes) [
    | some (some name) ↦ name
    | _ ↦ update_table_name s.changer d.spec.name table
  ]

  unfoldable pub delete_record_in : String → String → SyncDestination → State → State × Status
  unfolding destination_schema send_request create_table_name_schema
  delete_record_in table filter d =
      with_schema (destination_schema d (create_table_name_schema table)) λ bytes s.
        send_request (delete_record_at d.spec.name (table_name_at d table bytes s) filter) s

  unfoldable pub handle_message :
      Bool → Bool → List SyncDestination → Message → State → State × Status
  unfolding handle_insert handle_migrate delete_record_in count_error
  handle_message backend no_migrate ds (insert_message bytes) = handle_insert ds bytes
  handle_message backend no_migrate ds (delete_record_message table filter) =
      for_each (delete_record_in table filter) ds
  handle_message backend no_migrate ds (migrate_message bytes) =
      handle_migrate backend no_migrate ds bytes
  handle_message backend no_migrate ds (error_message table) = λ s. (count_error table s, running)
  handle_message backend no_migrate ds unknown_message = λ s. (s, failed unknown_type)

  -- The loop, to the end of the stream; `none` is an error of `Recv`.
  unfoldable pub handle_all :
      Bool → Bool → List SyncDestination → List (Option Message) → State → State × Status
  unfolding handle_message
  handle_all backend no_migrate ds [] s = (s, running)
  handle_all backend no_migrate ds (none ∷ ms) s = (s, failed receive_failed)
  handle_all backend no_migrate ds (some m ∷ ms) s =
      handle_message backend no_migrate ds m s ⟫ handle_all backend no_migrate ds ms
