-- ===== src/Specs/Examples.antt =====
-- Tests of the model of cli/internal/specs/v0, and its theorems at concrete inputs.
use cloudquery_fork4devin.Base.{
  lookup, insert, ◌≡◌, ◌≢◌, ◌↔◌, refl, true, false, String, code, List, [], ◌∷◌, Option, none, some,
  ok, here, if◌then◌else◌, ◌==◌, All, append, arith, eq_iff, num_eq,
}
use cloudquery_fork4devin.Base.Json.{empty}
use cloudquery_fork4devin.Specs.Registry
use cloudquery_fork4devin.Specs.Registry.{Registry, unset, github, local, cloudquery}
use cloudquery_fork4devin.Specs.Kind
use cloudquery_fork4devin.Specs.WriteMode
use cloudquery_fork4devin.Specs.MigrateMode
use cloudquery_fork4devin.Specs.PkMode
use cloudquery_fork4devin.Specs.EnumRoundTrip.{
  is_plain, DecodesPlain, from_string_iff, json_round_trip,
}
use cloudquery_fork4devin.Specs.Metadata
use cloudquery_fork4devin.Specs.Metadata.{Metadata}
use cloudquery_fork4devin.Specs.MetadataChecks.{
  IsCompleteForCloud, IsComplete, validate_iff, set_defaults_lem,
}
use cloudquery_fork4devin.Specs.Source
use cloudquery_fork4devin.Specs.Source.{Source, BackendOptions, plugin_name}
use cloudquery_fork4devin.Specs.Destination
use cloudquery_fork4devin.Specs.Destination.{Destination, rendered_sync_group_id}
use cloudquery_fork4devin.Specs.Expand.{
  should_escape_file_content, expand_time, expand_from, content_at, Formats, expand_env,
  expand_file_config,
}
use cloudquery_fork4devin.Specs.ExpandSegments.{
  Segment, literal, ref, IsPrintable, expand_env-print, expand_file_config-print,
}
use cloudquery_fork4devin.Specs.Reader.{
  add_source, add_destination, SpecReader, source_spec, destination_spec, add_spec, empty_reader,
  get_destination_names_for_source,
}
use cloudquery_fork4devin.Specs.Load.{
  load_path, load_specs_from_file, load_sections, load_section, Host, initialize,
}
use cloudquery_fork4devin.Specs.ReaderValidate.{
  validate, check_sources, check_source, note_version, destination_issues, new_spec_reader,
}
use cloudquery_fork4devin.Specs.ReaderInvariant.{
  IsConsistent, IsConsistent-empty, add_spec-IsConsistent, initialize-IsConsistent,
}
use cloudquery_fork4devin.Specs.ReaderReferences.{
  IsAccepted, new_spec_reader-IsAccepted, get_destination_names_for_source-total,
}
use cloudquery_fork4devin.Specs.Rendering.{
  Part, text, placeholder, year, sync_id, rendered_sync_group_id-print,
}
use cloudquery_fork4devin.Specs.PluginName.{before, plugin_name_lem}

abbrev aws_metadata : Metadata
aws_metadata = record {
  name = "aws";
  version = "v1";
  path = "cloudquery/aws";
  registry = unset;
  docker_registry_auth_token = "";
  registry_inferred = false;
}

abbrev aws : Source
aws = record {
  metadata = aws_metadata;
  tables = "*" ∷ [];
  skip_tables = [];
  skip_dependent_tables = none;
  destinations = "pg" ∷ [];
  backend_options = none;
  spec = none;
  deterministic_cq_id = false;
  otel_endpoint = "";
  otel_endpoint_insecure = false;
}

abbrev backend : BackendOptions
backend = record { table_name = "state"; connection = "@@plugins.pg.connection" }

abbrev pg : Destination
pg = record {
  metadata = record aws_metadata { name = "pg"; path = "cloudquery/postgresql" };
  write_mode = WriteMode.append;
  migrate_mode = MigrateMode.safe;
  pk_mode = PkMode.default_keys;
  sync_group_id = "{{YEAR}}-{{SYNC_ID}}";
  sync_summary = false;
  transformers = [];
  spec = none;
}

-- One file with two documents.
abbrev host : Host
host = record {
  stat = λ path. some false;
  read_file = λ path. some "source\n---\ndestination";
  read_dir = λ path. none;
  join = append;
  lookup_env = λ name. none;
  format_time = λ time format. none;
  formats = record { json_valid = λ s. false; pem_decodes = λ s. false; quote = λ s. s };
  strip_yaml_comments = some;
  unmarshal = λ doc.
      if doc == "source"
      then some (source_spec aws)
      else if doc == "destination"
      then some (destination_spec pg)
      else none;
}

abbrev aws_ready : Source
aws_ready = record aws {
  metadata = record aws_metadata { registry = cloudquery; registry_inferred = true };
  skip_dependent_tables = some true;
  spec = some empty;
}

abbrev pg_ready : Destination
pg_ready = record pg {
  metadata = record aws_metadata {
    name = "pg";
    path = "cloudquery/postgresql";
    registry = cloudquery;
    registry_inferred = true;
  };
  spec = some empty;
}

abbrev reader : SpecReader
reader = record {
  relaxed = false;
  sources_map = ("aws", aws_ready) ∷ [];
  destinations_map = ("pg", pg_ready) ∷ [];
  transformers_map = [];
  source_warnings_map = ("aws", []) ∷ [];
  destination_warnings_map = ("pg", []) ∷ [];
  transformer_warnings_map = [];
  sources = aws_ready ∷ [];
  destinations = pg_ready ∷ [];
  transformers = [];
}

abbrev paths : List String
paths = "cq.yml" ∷ []

loads : initialize host paths (empty_reader false) ≡ ok reader
unfolding initialize load_path load_specs_from_file load_sections load_section expand_file_config
    expand_time expand_env expand_from content_at add_spec add_source add_destination lookup insert
    Source.set_defaults Source.get_warnings Source.validate Destination.set_defaults
    Destination.validate
loads = refl

accepts : new_spec_reader host paths ≡ ok reader
unfolding new_spec_reader validate check_sources check_source note_version destination_issues lookup
    insert
accepts = rw loads

-- The theorems at this configuration.
abbrev with_source : SpecReader
with_source = record (empty_reader false) {
  sources_map = ("aws", aws_ready) ∷ [];
  source_warnings_map = ("aws", []) ∷ [];
  sources = aws_ready ∷ [];
}

adds_source : add_spec (empty_reader false) (source_spec aws) ≡ ok with_source
unfolding add_spec add_source lookup insert Source.set_defaults Source.get_warnings Source.validate
adds_source = refl

with_source-IsConsistent : IsConsistent with_source
with_source-IsConsistent =
    add_spec-IsConsistent (empty_reader false) (source_spec aws) (IsConsistent-empty false)
      adds_source

adds_destination : add_spec with_source (destination_spec pg) ≡ ok reader
unfolding add_spec add_destination lookup insert Destination.set_defaults Destination.validate
adds_destination = refl

initialize-IsConsistent_example : IsConsistent reader
initialize-IsConsistent_example = initialize-IsConsistent host false paths loads

new_spec_reader-IsAccepted_example : IsAccepted reader
new_spec_reader-IsAccepted_example = new_spec_reader-IsAccepted host paths accepts

get_destination_names_for_source-total_example :
    get_destination_names_for_source reader "aws" ≡ some ("pg" ∷ [])
get_destination_names_for_source-total_example =
    get_destination_names_for_source-total host paths reader aws_ready accepts here

from_string_iff_example :
    ((k : Kind.Kind) → (Kind.from_string "local" ≡ ok k) ↔ ("local" ≡ Kind.to_string k))
    × ((r : Registry) → (Registry.from_string "local" ≡ ok r) ↔ ("local" ≡ Registry.to_string r))
    × ((m : WriteMode.WriteMode)
        → (WriteMode.from_string "local" ≡ ok m) ↔ ("local" ≡ WriteMode.to_string m))
    × ((m : MigrateMode.MigrateMode)
        → (MigrateMode.from_string "local" ≡ ok m) ↔ ("local" ≡ MigrateMode.to_string m))
    × ((m : PkMode.PkMode) → (PkMode.from_string "local" ≡ ok m) ↔ ("local" ≡ PkMode.to_string m))
from_string_iff_example = from_string_iff "local"

validate_iff_example : (Metadata.validate aws_metadata ≡ none) ↔ IsComplete aws_metadata
validate_iff_example = validate_iff aws_metadata

plugin_name_lem_example :
    (plugin_name none ≡ some "")
    × (true ≡ false → plugin_name (some backend) ≡ some "")
    × ((rest : String)
        → "@@plugins.pg.connection" ≡ append "@@plugins." rest
        → plugin_name (some backend) ≡ some (before b'.' rest))
    × (plugin_name (some backend) ≢ none)
plugin_name_lem_example = plugin_name_lem backend

abbrev parts : List Part
parts = placeholder year ∷ text "-" ∷ placeholder sync_id ∷ []

rendered_sync_group_id-print_example :
    rendered_sync_group_id (λ layout. "2024") "abc" pg ≡ "2024-abc"
rendered_sync_group_id-print_example =
    rendered_sync_group_id-print (λ layout. "2024") "abc" pg parts refl (tt, (refl, (tt, tt)))
      (λ layout. refl)

abbrev segments : List Segment
segments = literal "path: " ∷ ref "NAME" ∷ literal "\n" ∷ []

abbrev segments_printable : All IsPrintable segments
segments_printable = (refl, ((ground (arith, eq_iff "NAME" ""), refl), (refl, tt)))

expand_env-print_example : expand_env (λ name. some "aws") "path: ${NAME}\n" ≡ ("path: aws\n", none)
expand_env-print_example = expand_env-print (λ name. some "aws") segments segments_printable

abbrev formats : Formats
formats = record { json_valid = λ s. true; pem_decodes = λ s. false; quote = λ s. "quoted" }

expand_file_config-print_example :
    expand_file_config formats (λ name. some "two\nlines") "path: ${file:NAME}\n"
    ≡ ("path: quoted\n", none)
unfolding should_escape_file_content
expand_file_config-print_example =
    expand_file_config-print formats (λ name. some "two\nlines") segments segments_printable

add_spec-IsConsistent_example : IsConsistent reader
add_spec-IsConsistent_example =
    add_spec-IsConsistent with_source (destination_spec pg) with_source-IsConsistent
      adds_destination

set_defaults_lem_example :
    ((Metadata.set_defaults aws_metadata).registry ≢ unset)
    × (aws_metadata.registry ≢ unset → Metadata.set_defaults aws_metadata ≡ aws_metadata)
    × (aws_metadata.registry ≡ unset
        → (Metadata.set_defaults aws_metadata
            ≡ record aws_metadata { registry = cloudquery; registry_inferred = true })
          × ((Metadata.validate (Metadata.set_defaults aws_metadata) ≡ none)
              ↔ IsCompleteForCloud aws_metadata))
    × (Metadata.set_defaults (Metadata.set_defaults aws_metadata)
        ≡ Metadata.set_defaults aws_metadata)
set_defaults_lem_example = set_defaults_lem aws_metadata

-- A decoder of JSON strings that have nothing to unescape.
until_quote : String → Option String
until_quote String.[] = none
until_quote (String.◌∷◌ c s) =
    let rest = until_quote s in
    if num_eq (code c) 34
    then some ""
    else elim rest [ none ↦ none | some t ↦ some (String.◌∷◌ c t) ]

decode : String → Option String
unfolding until_quote
decode String.[] = none
decode (String.◌∷◌ c s) = until_quote s

until_quote-append : (s : String) → is_plain s ≡ true → until_quote (append s "\"") ≡ some s
unfolding until_quote
until_quote-append String.[] h = refl
until_quote-append (String.◌∷◌ c s) h = ground (arith, until_quote-append s)

decode-DecodesPlain : DecodesPlain decode
unfolding decode
decode-DecodesPlain s h = until_quote-append s h

json_round_trip_example :
    ((k : Kind.Kind) → Kind.unmarshal_json decode (Kind.marshal_json k) ≡ ok k)
    × ((r : Registry) → Registry.unmarshal_json decode (Registry.marshal_json r) ≡ ok r)
    × ((m : WriteMode.WriteMode)
        → WriteMode.unmarshal_json decode (WriteMode.marshal_json m) ≡ ok m)
    × ((m : MigrateMode.MigrateMode)
        → MigrateMode.unmarshal_json decode (MigrateMode.marshal_json m) ≡ ok m)
    × ((m : PkMode.PkMode) → PkMode.unmarshal_json decode (PkMode.marshal_json m) ≡ ok m)
json_round_trip_example = json_round_trip decode decode-DecodesPlain
