-- ===== src/Specs/Registry.antt =====
-- cli/internal/specs/v0/registry.go
use cloudquery_fork4devin.Base.{Bool, true, false, ◌||◌, String, List, [], ◌∷◌, Option, Result}
use cloudquery_fork4devin.Specs.Enums.{
  EnumError, unknown_registry, value_from, or_error, decode_with, quoted,
}

pub data Registry : Type 0 where
  unset github local grpc docker cloudquery : Registry

-- The array `AllRegistries`, which `String` indexes.
unfoldable pub to_string : Registry → String
to_string unset = ""
to_string github = "github"
to_string local = "local"
to_string grpc = "grpc"
to_string docker = "docker"
to_string cloudquery = "cloudquery"

abbrev pub all_registries : List Registry
all_registries = unset ∷ github ∷ local ∷ grpc ∷ docker ∷ cloudquery ∷ []

unfoldable pub from_string : String → Result EnumError Registry
unfolding to_string
from_string s = or_error (value_from to_string all_registries s) (unknown_registry s)

unfoldable pub marshal_json : Registry → String
unfolding to_string
marshal_json m = quoted (to_string m)

unfoldable pub unmarshal_json : (String → Option String) → String → Result EnumError Registry
unfolding from_string
unmarshal_json decode text = decode_with decode from_string text

abbrev pub eqb : Registry → Registry → Bool
eqb unset unset = true
eqb github github = true
eqb local local = true
eqb grpc grpc = true
eqb docker docker = true
eqb cloudquery cloudquery = true
eqb _ _ = false

unfoldable pub need_version : Registry → Bool
need_version r = eqb r github || eqb r cloudquery
