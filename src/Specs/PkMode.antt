-- ===== src/Specs/PkMode.antt =====
-- cli/internal/specs/v0/pk_mode.go
use cloudquery_fork4devin.Base.{String, List, [], ◌∷◌, Option, Result}
use cloudquery_fork4devin.Specs.Enums.{
  EnumError, invalid_pk_mode, value_from, or_error, decode_with, quoted,
}

pub data PkMode : Type 0 where
  default_keys cqid : PkMode

-- The array `AllPKModes`, which `String` indexes.
unfoldable pub to_string : PkMode → String
to_string default_keys = "default"
to_string cqid = "cq-id-only"

abbrev pub all_pk_modes : List PkMode
all_pk_modes = default_keys ∷ cqid ∷ []

unfoldable pub from_string : String → Result EnumError PkMode
unfolding to_string
from_string s = or_error (value_from to_string all_pk_modes s) (invalid_pk_mode s)

unfoldable pub marshal_json : PkMode → String
unfolding to_string
marshal_json m = quoted (to_string m)

unfoldable pub unmarshal_json : (String → Option String) → String → Result EnumError PkMode
unfolding from_string
unmarshal_json decode text = decode_with decode from_string text
