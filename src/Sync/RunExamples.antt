-- ===== src/Sync/RunExamples.antt =====
-- Tests of the model of a sync, and its theorems at concrete inputs.
use cloudquery_fork4devin.Base.{
  ◌≡◌, refl, true, false, String, List, [], ◌∷◌, Option, none, some, Member, concat, lookup, insert,
}
use cloudquery_fork4devin.Arrow.Plain.{plain, PlainSchema, Batch, string_t}
use cloudquery_fork4devin.Specs.Destination.{rendered_sync_group_id, Destination}
use cloudquery_fork4devin.Specs.Registry
use cloudquery_fork4devin.Specs.WriteMode
use cloudquery_fork4devin.Specs.MigrateMode
use cloudquery_fork4devin.Specs.PkMode
use cloudquery_fork4devin.RecordTransformer.{
  Keys, new_record_transformer, transform, transform_schema, apply, apply_all,
}
use cloudquery_fork4devin.TableNameChanger.{
  TableNameChanger, learn_table_name_change, update_table_name, update_table_names,
}
use cloudquery_fork4devin.Sync.Host.{Host, accepted, TableInfo, delete_stale_at}
use cloudquery_fork4devin.Sync.Messages.{
  Message, State, Status, SyncDestination, insert_message, migrate_message, delete_record_message,
  error_message, handle_all, handle_message, handle_insert, count_rows, insert_at, send,
  send_request, handle_migrate, migrate_destination, destination_schema, note_table, count_error,
  delete_record_in, create_table_name_schema,
}
use cloudquery_fork4devin.Sync.Adds.{inserts_to}
use cloudquery_fork4devin.Sync.Delivered.{handle_all-delivers}
use cloudquery_fork4devin.Sync.DeleteStale.{delete_all, delete_stale}
use cloudquery_fork4devin.Sync.StaleDeleted.{delete_all-reaches}
use cloudquery_fork4devin.Sync.OptionsChosen.{destination_transformer, destination_options_lem}
use cloudquery_fork4devin.Sync.Totals.{IsCounted, handle_all-IsCounted}

abbrev keys : Keys
keys = record {
  primary_key = "cq:extension:primary_key";
  unique = "cq:extension:unique";
  true_value = "true";
}

abbrev table_key : String
table_key = "cq:table_name"

abbrev schema_named : String → PlainSchema
schema_named name = record {
  fields = record { name = "id"; type = string_t; nullable = true; metadata = [] } ∷ [];
  metadata = (table_key, name) ∷ [];
}

abbrev batch_of : String → Batch
batch_of name = record {
  schema = schema_named name;
  columns = record { type = string_t; cells = some "1" ∷ some "2" ∷ [] } ∷ [];
  rows = 2;
}

abbrev named : PlainSchema → Option String
named sc = plain.get_value sc.metadata table_key

abbrev as_table : Option String → Option TableInfo
as_table none = none
as_table (some name) = some (record { name = name; is_incremental = false; parent = none })

-- The bytes of a record and of a schema are the name of their table.
abbrev host : Host plain
host = record {
  record_of_bytes = λ bytes. some (batch_of bytes);
  record_to_bytes = λ r. named r.schema;
  schema_of_bytes = λ bytes. some (schema_named bytes);
  schema_to_bytes = named;
  table_of_schema = λ sc. as_table (named sc);
  table_name_key = table_key;
  send = λ log d. accepted;
  is_cloud = false;
}

abbrev pg : Destination
pg = record {
  metadata = record {
    name = "pg";
    version = "v1";
    path = "cloudquery/postgresql";
    registry = Registry.cloudquery;
    registry_inferred = false;
    docker_registry_auth_token = "";
  };
  write_mode = WriteMode.overwrite_delete_stale;
  migrate_mode = MigrateMode.safe;
  pk_mode = PkMode.default_keys;
  sync_group_id = "";
  sync_summary = false;
  transformers = [];
  spec = none;
}

abbrev pg_run : SyncDestination plain keys host
pg_run = record { spec = pg; transformer = new_record_transformer plain keys []; plugins = [] }

-- A destination whose transformer plugin appends to the names of tables.
abbrev s3_run : SyncDestination plain keys host
s3_run = record pg_run {
  spec = record pg { metadata = record pg.metadata { name = "s3" } };
  plugins = (λ bytes. some (concat (bytes ∷ "_v2" ∷ []))) ∷ [];
}

abbrev start : State
start = record {
  source_tables = [];
  skipped_from_delete_stale = [];
  tables_for_delete_stale = [];
  stats_per_table = [];
  total_resources = 0;
  changer = ("s3", []) ∷ ("pg", []) ∷ [];
  log = [];
}

abbrev messages : List (Option Message)
messages =
    some (migrate_message "a")
    ∷ some (insert_message "a")
    ∷ some (error_message "a")
    ∷ some (delete_record_message "a" "x")
    ∷ some (insert_message "a")
    ∷ []

abbrev ran : State × Status
ran = handle_all plain keys host true false (s3_run ∷ pg_run ∷ []) messages start

handle_all-delivers_example : inserts_to "pg" ran.0.log ≡ "a" ∷ "a" ∷ []
unfolding handle_all handle_message handle_insert count_rows insert_at send send_request
    handle_migrate migrate_destination destination_schema note_table count_error delete_record_in
    create_table_name_schema transform learn_table_name_change lookup insert new_record_transformer
    apply apply_all transform_schema update_table_name
handle_all-delivers_example =
    handle_all-delivers "pg" plain keys host true false (s3_run ∷ pg_run ∷ []) messages start ran.0
      refl

handle_all-IsCounted_example : IsCounted ran.0
handle_all-IsCounted_example =
    handle_all-IsCounted plain keys host true false (s3_run ∷ pg_run ∷ []) messages start refl

total : ran.0.total_resources ≡ 4
unfolding handle_all handle_message handle_insert count_rows insert_at send send_request
    handle_migrate migrate_destination destination_schema note_table count_error delete_record_in
    create_table_name_schema transform learn_table_name_change lookup insert new_record_transformer
    apply apply_all transform_schema update_table_name
total = refl

abbrev now : String
now = "2024-01-01T00:00:00Z"

abbrev changes : TableNameChanger
changes = ("s3", ("a", "a_v2") ∷ []) ∷ ("pg", []) ∷ []

abbrev stale_after : List (SyncDestination plain keys host) → State × Status
stale_after ds =
    delete_all plain keys host "aws" now changes ds (("a", true) ∷ ("b", true) ∷ []) start

delete_all-reaches_example :
    Member (delete_stale_at "pg" "b" "aws" now) (stale_after (s3_run ∷ pg_run ∷ [])).0.log
unfolding delete_all delete_stale send_request update_table_names update_table_name lookup insert
delete_all-reaches_example =
    delete_all-reaches plain keys host "aws" now changes (s3_run ∷ []) pg_run []
      (("a", true) ∷ ("b", true) ∷ []) "b" start (stale_after (s3_run ∷ pg_run ∷ [])).0 refl refl
      (refl, tt) refl

-- The table that has another name at the first destination is not deleted from at the second.
lost_at_second :
    (stale_after (s3_run ∷ pg_run ∷ [])).0.log
    ≡ delete_stale_at "s3" "a_v2" "aws" now
      ∷ delete_stale_at "s3" "b" "aws" now
      ∷ delete_stale_at "pg" "b" "aws" now
      ∷ []
unfolding delete_all delete_stale send_request update_table_names update_table_name lookup insert
lost_at_second = refl

-- Nor is one whose own name was learned at the first destination.
own_name_lost :
    (delete_all plain keys host "aws" now
      (("s3", ("a", "a") ∷ []) ∷ ("pg", []) ∷ [])
      (s3_run ∷ pg_run ∷ [])
      (("a", true) ∷ [])
      start).0.log
    ≡ delete_stale_at "s3" "a" "aws" now ∷ []
unfolding delete_all delete_stale send_request update_table_names update_table_name lookup insert
own_name_lost = refl

abbrev by_id : Destination
by_id = record pg { pk_mode = PkMode.cqid; sync_group_id = "{{YEAR}}" }

destination_options_lem_example :
    let t = destination_transformer plain keys "aws" "2024" (λ f. f) "u" true by_id in
    (t.remove_pks ≡ true)
    × (t.remove_unique_constraints ≡ false)
    × (t.cq_id_primary_key ≡ true)
    × (t.with_source_name ≡ true)
    × (t.source_name ≡ "aws")
    × (t.with_sync_time ≡ true)
    × (t.sync_time ≡ "2024")
    × (t.with_sync_group_id ≡ true)
    × (t.sync_group_id ≡ rendered_sync_group_id (λ f. f) "u" by_id)
    × (t.cq_columns_not_null ≡ true)
destination_options_lem_example =
    destination_options_lem plain keys "aws" "2024" (λ f. f) "u" true by_id
