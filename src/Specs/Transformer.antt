-- ===== src/Specs/Transformer.antt =====
-- cli/internal/specs/v0/transformer.go. `SetDefaults` is that of the embedded `Metadata`.
use cloudquery_fork4devin.Base.{String, [], Option, Dict}
use cloudquery_fork4devin.Base.Json.{Object}
use cloudquery_fork4devin.Specs.Metadata
use cloudquery_fork4devin.Specs.Metadata.{Metadata, MetadataError}

pub record Transformer : Type 0 where
  pub metadata : Metadata
  pub open metadata use *
  pub spec : Option Object

-- `GetWarnings`: none.
abbrev pub get_warnings : Transformer → Dict String
get_warnings t = []

unfoldable pub validate : Transformer → Option MetadataError
unfolding Metadata.validate
validate t = Metadata.validate t.metadata

unfoldable pub set_defaults : Transformer → Transformer
unfolding Metadata.set_defaults
set_defaults t = record t { metadata = Metadata.set_defaults t.metadata }
