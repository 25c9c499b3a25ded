-- ===== src/Specs/WriteMode.antt =====
-- cli/internal/specs/v0/write_mode.go
use cloudquery_fork4devin.Base.{String, List, [], ◌∷◌, Option, Result}
use cloudquery_fork4devin.Specs.Enums.{
  EnumError, invalid_write_mode, value_from, or_error, decode_with, quoted,
}

pub data WriteMode : Type 0 where
  overwrite_delete_stale overwrite append : WriteMode

-- The array `AllWriteModes`, which `String` indexes.
unfoldable pub to_string : WriteMode → String
to_string overwrite_delete_stale = "overwrite-delete-stale"
to_string overwrite = "overwrite"
to_string append = "append"

abbrev pub all_write_modes : List WriteMode
all_write_modes = overwrite_delete_stale ∷ overwrite ∷ append ∷ []

unfoldable pub from_string : String → Result EnumError WriteMode
unfolding to_string
from_string s = or_error (value_from to_string all_write_modes s) (invalid_write_mode s)

unfoldable pub marshal_json : WriteMode → String
unfolding to_string
marshal_json m = quoted (to_string m)

unfoldable pub unmarshal_json : (String → Option String) → String → Result EnumError WriteMode
unfolding from_string
unmarshal_json decode text = decode_with decode from_string text
