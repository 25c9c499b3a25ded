-- ===== src/Specs/MigrateMode.antt =====
-- cli/internal/specs/v0/migrate_mode.go
use cloudquery_fork4devin.Base.{String, List, [], ◌∷◌, Option, Result}
use cloudquery_fork4devin.Specs.Enums.{
  EnumError, invalid_migrate_mode, value_from, or_error, decode_with, quoted,
}

pub data MigrateMode : Type 0 where
  safe forced : MigrateMode

-- The array `AllMigrateModes`, which `String` indexes.
unfoldable pub to_string : MigrateMode → String
to_string safe = "safe"
to_string forced = "forced"

abbrev pub all_migrate_modes : List MigrateMode
all_migrate_modes = safe ∷ forced ∷ []

unfoldable pub from_string : String → Result EnumError MigrateMode
unfolding to_string
from_string s = or_error (value_from to_string all_migrate_modes s) (invalid_migrate_mode s)

unfoldable pub marshal_json : MigrateMode → String
unfolding to_string
marshal_json m = quoted (to_string m)

unfoldable pub unmarshal_json : (String → Option String) → String → Result EnumError MigrateMode
unfolding from_string
unmarshal_json decode text = decode_with decode from_string text
