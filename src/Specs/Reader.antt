-- ===== src/Specs/Reader.antt =====
-- cli/internal/specs/v0/spec_reader.go: the reader's state, and how one document of a configuration
-- is added to it. The pointers of the maps and of the slices are never written through here, so
-- both hold values.
use cloudquery_fork4devin.Base.{
  Bool, String, ℕ, List, [], ◌∷◌, ◌++◌, Option, none, some, Result, err, unless, Dict, lookup,
  insert, is_some, if◌then◌else◌, contains,
}
use cloudquery_fork4devin.Specs.Metadata.{MetadataError}
use cloudquery_fork4devin.Specs.Source
use cloudquery_fork4devin.Specs.Source.{Source, SourceError}
use cloudquery_fork4devin.Specs.Destination
use cloudquery_fork4devin.Specs.Destination.{Destination}
use cloudquery_fork4devin.Specs.Transformer
use cloudquery_fork4devin.Specs.Transformer.{Transformer}
use cloudquery_fork4devin.Specs.WriteMode.{WriteMode}
use cloudquery_fork4devin.Specs.Expand.{ExpandError}

pub record SpecReader : Type 0 where
  pub relaxed : Bool
  pub sources_map : Dict Source
  pub destinations_map : Dict Destination
  pub transformers_map : Dict Transformer
  pub source_warnings_map : Dict (Dict String)
  pub destination_warnings_map : Dict (Dict String)
  pub transformer_warnings_map : Dict (Dict String)
  pub sources : List Source
  pub destinations : List Destination
  pub transformers : List Transformer

-- The errors that `validate` joins.
pub data DestinationIssue : Type 0 where
  sync_group_unsupported : String → WriteMode → DestinationIssue
  unknown_transformer : String → String → DestinationIssue

-- The errors of the reader; a section is numbered from 1.
pub data ReaderError : Type 0 where
  cannot_open cannot_read cannot_read_dir : String → ReaderError
  cannot_strip cannot_unmarshal : String → ReaderError
  cannot_expand : String → ℕ → ExpandError → ReaderError
  duplicate_source duplicate_destination duplicate_transformer : String → ReaderError
  invalid_source : String → SourceError → ReaderError
  invalid_destination invalid_transformer : String → MetadataError → ReaderError
  no_source no_destination no_source_or_destination : ReaderError
  unknown_destination : String → String → ReaderError
  different_versions : String → String → ReaderError
  joined : List DestinationIssue → ReaderError

-- `Spec`: the kind, and the spec that the kind selects in `UnmarshalJSON`.
pub data Spec : Type 0 where
  source_spec : Source → Spec
  destination_spec : Destination → Spec
  transformer_spec : Transformer → Spec

-- `newSpecReader`, with the flag that `NewRelaxedSpecReader` sets.
abbrev pub empty_reader : Bool → SpecReader
empty_reader relaxed = record {
  relaxed = relaxed;
  sources_map = [];
  destinations_map = [];
  transformers_map = [];
  source_warnings_map = [];
  destination_warnings_map = [];
  transformer_warnings_map = [];
  sources = [];
  destinations = [];
  transformers = [];
}

-- The three cases of the `switch` in `loadSpecsFromFile`. Warnings are taken before the defaults.
unfoldable pub add_source : SpecReader → Source → Result ReaderError SpecReader
add_source r s =
    if is_some (lookup s.name r.sources_map)
    then err (duplicate_source s.name)
    else (let s' = Source.set_defaults s in
        unless (Source.validate r.relaxed s') (invalid_source s'.name) (record r {
          source_warnings_map = insert s.name (Source.get_warnings s) r.source_warnings_map;
          sources_map = insert s'.name s' r.sources_map;
          sources = r.sources ++ s' ∷ [];
        }))

unfoldable pub add_destination : SpecReader → Destination → Result ReaderError SpecReader
add_destination r d =
    if is_some (lookup d.name r.destinations_map)
    then err (duplicate_destination d.name)
    else (let d' = Destination.set_defaults d in
        unless (Destination.validate d') (invalid_destination d'.name) (record r {
          destination_warnings_map =
              insert d.name (Destination.get_warnings d) r.destination_warnings_map;
          destinations_map = insert d'.name d' r.destinations_map;
          destinations = r.destinations ++ d' ∷ [];
        }))

unfoldable pub add_transformer : SpecReader → Transformer → Result ReaderError SpecReader
add_transformer r t =
    if is_some (lookup t.name r.transformers_map)
    then err (duplicate_transformer t.name)
    else (let t' = Transformer.set_defaults t in
        unless (Transformer.validate t') (invalid_transformer t'.name) (record r {
          transformer_warnings_map =
              insert t.name (Transformer.get_warnings t) r.transformer_warnings_map;
          transformers_map = insert t'.name t' r.transformers_map;
          transformers = r.transformers ++ t' ∷ [];
        }))

unfoldable pub add_spec : SpecReader → Spec → Result ReaderError SpecReader
add_spec r (source_spec s) = add_source r s
add_spec r (destination_spec d) = add_destination r d
add_spec r (transformer_spec t) = add_transformer r t

-- `GetSourceByName` and the other getters; `none` is nil.
unfoldable pub get_source_by_name : SpecReader → String → Option Source
get_source_by_name r name = lookup name r.sources_map

unfoldable pub get_destination_by_name : SpecReader → String → Option Destination
get_destination_by_name r name = lookup name r.destinations_map

abbrev or_nil : Option (Dict String) → Dict String
or_nil none = []
or_nil (some w) = w

unfoldable pub get_source_warnings_by_name : SpecReader → String → Dict String
get_source_warnings_by_name r name = or_nil (lookup name r.source_warnings_map)

unfoldable pub get_destination_warnings_by_name : SpecReader → String → Dict String
get_destination_warnings_by_name r name = or_nil (lookup name r.destination_warnings_map)

unfoldable pub get_transformer_warnings_by_name : SpecReader → String → Dict String
get_transformer_warnings_by_name r name = or_nil (lookup name r.transformer_warnings_map)

-- The loop of `GetDestinationNamesForSource`. `none` is the panic of a nil pointer.
unfoldable pub destination_names : SpecReader → List String → List String → Option (List String)
destination_names r all [] = some []
destination_names r all (name ∷ names) =
    let rest = destination_names r all names in
    if contains all name
    then elim (lookup name r.destinations_map) [
      | none ↦ none
      | some d ↦ elim rest [ none ↦ none | some found ↦ some (d.name ∷ found) ]
    ]
    else rest

unfoldable pub get_destination_names_for_source : SpecReader → String → Option (List String)
unfolding destination_names
get_destination_names_for_source r name = elim (lookup name r.sources_map) [
  | none ↦ none
  | some s ↦ destination_names r s.destinations s.destinations
]
