-- ===== src/Specs/Source.antt =====
-- cli/internal/specs/v0/source.go. A pointer is an `Option`, and a nil map is `none`.
use cloudquery_fork4devin.Base.{
  Bool, true, false, ◌&&◌, not, String, List, [], ◌∷◌, ◌++◌, Option, none, some, Dict, contains,
  length, get_elem?, is_empty, has_prefix, split, ltb, if◌then◌else◌,
}
use cloudquery_fork4devin.Base.Json
use cloudquery_fork4devin.Base.Json.{Object}
use cloudquery_fork4devin.Specs.Metadata
use cloudquery_fork4devin.Specs.Metadata.{Metadata, MetadataError}

pub record BackendOptions : Type 0 where
  pub table_name : String
  pub connection : String

-- `PluginName`. `none` is the panic of an index out of range.
unfoldable pub plugin_name : Option BackendOptions → Option String
plugin_name none = some ""
plugin_name (some b) =
    if not (has_prefix b.connection "@@plugins.")
    then some ""
    else get_elem? (split b'.' b.connection) 1

pub record Source : Type 0 where
  pub metadata : Metadata
  pub open metadata use *
  pub tables : List String
  pub skip_tables : List String
  pub skip_dependent_tables : Option Bool
  pub destinations : List String
  pub backend_options : Option BackendOptions
  pub spec : Option Object
  pub deterministic_cq_id : Bool
  pub otel_endpoint : String
  pub otel_endpoint_insecure : Bool

is_set : Option Bool → Bool
is_set none = false
is_set (some b) = b

-- `GetWarnings`, in the order in which the code fills the map.
unfoldable pub get_warnings : Source → Dict String
unfolding is_set
get_warnings s =
    (if is_set s.skip_dependent_tables && contains s.tables "*"
      then (
        "skip_dependent_tables",
        "the `skip_dependent_tables` option is ineffective when used with '*' `tables`",
      )
        ∷ []
      else [])
    ++ (if contains s.tables "*" && ltb 1 (length s.tables)
        then (
          "all_tables_with_more_tables",
          "`tables` option contains '*' as well as other tables. '*' will match all tables",
        )
          ∷ []
        else [])

abbrev or_make {ℓ} : {A : Type ℓ} → A → Option A → Option A
or_make a none = some a
or_make a (some b) = some b

unfoldable pub set_defaults : Source → Source
unfolding Metadata.set_defaults
set_defaults s = record s {
  metadata = Metadata.set_defaults s.metadata;
  spec = or_make Json.empty s.spec;
  skip_dependent_tables = or_make true s.skip_dependent_tables;
}

pub data SourceError : Type 0 where
  metadata_error : MetadataError → SourceError
  tables_required destination_required : SourceError

-- The checks of `Validate` after those of the metadata.
abbrev pub validate_lists : Bool → Source → Option SourceError
validate_lists relaxed s =
    if is_empty s.tables
    then some tables_required
    else if not relaxed && is_empty s.destinations
    then some destination_required
    else none

unfoldable pub validate : Bool → Source → Option SourceError
unfolding Metadata.validate
validate relaxed s = elim (Metadata.validate s.metadata) [
  | some e ↦ some (metadata_error e)
  | none ↦ validate_lists relaxed s
]
