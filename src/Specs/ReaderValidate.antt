-- ===== src/Specs/ReaderValidate.antt =====
-- cli/internal/specs/v0/spec_reader.go: the checks on a whole configuration, and the constructors.
use cloudquery_fork4devin.Base.{
  Bool, true, false, ◌&&◌, not, String, List, [], ◌∷◌, ◌++◌, Option, none, some, Result, ok, err,
  ◌>>=◌, unless, Dict, lookup, insert, is_none, is_empty, if◌then◌else◌, concat, ◌==◌,
}
use cloudquery_fork4devin.Specs.Source.{Source}
use cloudquery_fork4devin.Specs.Destination.{Destination}
use cloudquery_fork4devin.Specs.WriteMode.{WriteMode, overwrite_delete_stale}
use cloudquery_fork4devin.Specs.Reader.{
  SpecReader, ReaderError, DestinationIssue, sync_group_unsupported, unknown_transformer, no_source,
  no_destination, no_source_or_destination, unknown_destination, different_versions, joined,
  empty_reader,
}
use cloudquery_fork4devin.Specs.Load.{Host, initialize}

abbrev pub destination_key : String → Source → String
destination_key d s = concat (d ∷ "-" ∷ s.path ∷ [])

abbrev pub path_version : Source → String
path_version s = concat (s.path ∷ "@" ∷ s.version ∷ [])

-- A map read, which gives "" for a missing key.
abbrev pub or_empty : Option String → String
or_empty none = ""
or_empty (some v) = v

-- `destinationSourceMap` after one use of a destination by a source: `none` is a version conflict.
unfoldable pub note_version : String → String → Dict String → Option (Dict String)
note_version key value seen =
    if or_empty (lookup key seen) == ""
    then some (insert key value seen)
    else if not (or_empty (lookup key seen) == value)
    then none
    else some seen

-- The loop over the destinations of one source.
unfoldable pub check_source :
    SpecReader → Source → List String → Dict String → Result ReaderError (Dict String)
check_source r s [] seen = ok seen
check_source r s (d ∷ ds) seen = elim (lookup d r.destinations_map) [
  | none ↦ err (unknown_destination s.name d)
  | some _ ↦ elim (note_version (destination_key d s) (path_version s) seen) [
    | none ↦ err (different_versions d s.path)
    | some seen' ↦ check_source r s ds seen'
  ]
]

unfoldable pub check_sources :
    SpecReader → List Source → Dict String → Result ReaderError (Dict String)
check_sources r [] seen = ok seen
check_sources r (s ∷ rest) seen = do
  seen ← check_source r s s.destinations seen
  check_sources r rest seen

abbrev pub is_delete_stale : WriteMode → Bool
is_delete_stale overwrite_delete_stale = true
is_delete_stale _ = false

unfoldable pub sync_group_issues : Destination → List DestinationIssue
sync_group_issues d =
    if not (d.sync_group_id == "") && is_delete_stale d.write_mode
    then sync_group_unsupported d.name d.write_mode ∷ []
    else []

unfoldable pub transformer_issues : SpecReader → Destination → List String → List DestinationIssue
transformer_issues r d [] = []
transformer_issues r d (t ∷ ts) =
    (if is_none (lookup t r.transformers_map) then unknown_transformer d.name t ∷ [] else [])
    ++ transformer_issues r d ts

unfoldable pub destination_issues : SpecReader → List Destination → List DestinationIssue
unfolding sync_group_issues transformer_issues
destination_issues r [] = []
destination_issues r (d ∷ rest) =
    sync_group_issues d ++ (transformer_issues r d d.transformers ++ destination_issues r rest)

unfoldable pub all_sync_group_issues : List Destination → List DestinationIssue
unfolding sync_group_issues
all_sync_group_issues [] = []
all_sync_group_issues (d ∷ rest) = sync_group_issues d ++ all_sync_group_issues rest

-- What `errors.Join` gives: nil for no error.
abbrev pub join_issues : List DestinationIssue → Option ReaderError
join_issues [] = none
join_issues (i ∷ is) = some (joined (i ∷ is))

unfoldable pub validate : SpecReader → Option ReaderError
validate r =
    if is_empty r.sources
    then some no_source
    else if is_empty r.destinations
    then some no_destination
    else elim (check_sources r r.sources []) [
      | err e ↦ some e
      | ok _ ↦ join_issues (destination_issues r r.destinations)
    ]

unfoldable pub relaxed_validate : SpecReader → Option ReaderError
relaxed_validate r =
    if is_empty r.sources && is_empty r.destinations
    then some no_source_or_destination
    else join_issues (all_sync_group_issues r.destinations)

-- `NewSpecReader` and `NewRelaxedSpecReader`
unfoldable pub new_spec_reader : Host → List String → Result ReaderError SpecReader
new_spec_reader host paths = do
  r ← initialize host paths (empty_reader false)
  unless (validate r) (λ e. e) r

unfoldable pub new_relaxed_spec_reader : Host → List String → Result ReaderError SpecReader
new_relaxed_spec_reader host paths = do
  r ← initialize host paths (empty_reader true)
  unless (relaxed_validate r) (λ e. e) r
