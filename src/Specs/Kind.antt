-- ===== src/Specs/Kind.antt =====
-- cli/internal/specs/v0/kind.go
use cloudquery_fork4devin.Base.{String, List, [], ◌∷◌, Option, Result}
use cloudquery_fork4devin.Specs.Enums.{
  EnumError, unknown_kind, value_from, or_error, decode_with, quoted,
}

pub data Kind : Type 0 where
  source destination transformer : Kind

-- The array `AllKinds`, which `String` indexes.
unfoldable pub to_string : Kind → String
to_string source = "source"
to_string destination = "destination"
to_string transformer = "transformer"

abbrev pub all_kinds : List Kind
all_kinds = source ∷ destination ∷ transformer ∷ []

unfoldable pub from_string : String → Result EnumError Kind
unfolding to_string
from_string s = or_error (value_from to_string all_kinds s) (unknown_kind s)

unfoldable pub marshal_json : Kind → String
unfolding to_string
marshal_json k = quoted (to_string k)

unfoldable pub unmarshal_json : (String → Option String) → String → Result EnumError Kind
unfolding from_string
unmarshal_json decode text = decode_with decode from_string text
