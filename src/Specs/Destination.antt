-- ===== src/Specs/Destination.antt =====
-- cli/internal/specs/v0/destination.go
use cloudquery_fork4devin.Base.{Bool, String, List, [], Option, none, some, Dict, replace_all}
use cloudquery_fork4devin.Base.Json
use cloudquery_fork4devin.Base.Json.{Object}
use cloudquery_fork4devin.Specs.Metadata
use cloudquery_fork4devin.Specs.Metadata.{Metadata, MetadataError}
use cloudquery_fork4devin.Specs.WriteMode.{WriteMode}
use cloudquery_fork4devin.Specs.MigrateMode.{MigrateMode}
use cloudquery_fork4devin.Specs.PkMode.{PkMode}

abbrev pub var_year : String
var_year = "{{YEAR}}"

abbrev pub var_month : String
var_month = "{{MONTH}}"

abbrev pub var_day : String
var_day = "{{DAY}}"

abbrev pub var_hour : String
var_hour = "{{HOUR}}"

abbrev pub var_minute : String
var_minute = "{{MINUTE}}"

abbrev pub var_sync_id : String
var_sync_id = "{{SYNC_ID}}"

pub record Destination : Type 0 where
  pub metadata : Metadata
  pub open metadata use *
  pub write_mode : WriteMode
  pub migrate_mode : MigrateMode
  pub pk_mode : PkMode
  pub sync_group_id : String
  pub sync_summary : Bool
  pub transformers : List String
  pub spec : Option Object

-- `GetWarnings`: none.
abbrev pub get_warnings : Destination → Dict String
get_warnings d = []

abbrev or_make : Option Object → Option Object
or_make none = some Json.empty
or_make (some o) = some o

unfoldable pub set_defaults : Destination → Destination
unfolding Metadata.set_defaults
set_defaults d = record d { metadata = Metadata.set_defaults d.metadata; spec = or_make d.spec }

unfoldable pub validate : Destination → Option MetadataError
unfolding Metadata.validate
validate d = Metadata.validate d.metadata

-- `RenderedSyncGroupId`. `format` is `t.Format` of the time `t`.
unfoldable pub rendered_sync_group_id : (String → String) → String → Destination → String
rendered_sync_group_id format sync_id d =
    let rendered = replace_all d.sync_group_id var_year (format "2006") in
    let rendered = replace_all rendered var_month (format "01") in
    let rendered = replace_all rendered var_day (format "02") in
    let rendered = replace_all rendered var_hour (format "15") in
    let rendered = replace_all rendered var_minute (format "04") in
    replace_all rendered var_sync_id sync_id
