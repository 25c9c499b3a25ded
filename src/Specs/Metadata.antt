-- ===== src/Specs/Metadata.antt =====
-- cli/internal/specs/v0/metadata.go: the part of a spec that names a plugin.
use cloudquery_fork4devin.Base.{
  Bool, true, String, List, [], ◌∷◌, Option, none, some, ◌==◌, contains, if◌then◌else◌, concat,
  has_prefix,
}
use cloudquery_fork4devin.Specs.Registry
use cloudquery_fork4devin.Specs.Registry.{
  Registry, unset, github, local, grpc, docker, cloudquery, need_version, eqb,
}

pub record Metadata : Type 0 where
  pub name : String
  pub version : String
  pub path : String
  pub registry : Registry
  pub docker_registry_auth_token : String
  pub registry_inferred : Bool

unfoldable pub version_string : Metadata → String
unfolding Registry.to_string
version_string m = elim m.registry [
  | cloudquery ↦ concat (m.name ∷ " (" ∷ m.path ∷ "@" ∷ m.version ∷ ")" ∷ [])
  | local ↦ concat (m.name ∷ " (" ∷ Registry.to_string m.registry ∷ "@" ∷ m.path ∷ ")" ∷ [])
  | grpc ↦ concat (m.name ∷ " (" ∷ Registry.to_string m.registry ∷ "@" ∷ m.path ∷ ")" ∷ [])
  | _ ↦
      concat
        (m.name ∷ "@" ∷ Registry.to_string m.registry ∷ " (" ∷ m.path ∷ "@" ∷ m.version ∷ ")" ∷ [])
]

-- The errors of `Validate`; `path_required` has the plugin's name where the message has the hint.
pub data MetadataError : Type 0 where
  name_required version_required version_without_v : MetadataError
  path_required : Option String → MetadataError

abbrev pub official_plugins : List String
official_plugins =
    "aws" ∷ "azure" ∷ "gcp" ∷ "digitalocean" ∷ "github" ∷ "heroku" ∷ "k8s" ∷ "okta" ∷ "terraform"
    ∷ "cloudflare" ∷ "postgresql" ∷ "csv" ∷ "clickhouse" ∷ []

-- The name, where the message for a missing path ends in the hint.
unfoldable pub hinted : String → Option String
hinted name = if contains official_plugins name then some name else none

unfoldable pub validate : Metadata → Option MetadataError
unfolding need_version
validate m =
    if m.name == ""
    then some name_required
    else if m.path == ""
    then some (path_required (hinted m.name))
    else if need_version m.registry
    then (if m.version == ""
        then some version_required
        else if has_prefix m.version "v"
        then none
        else some version_without_v)
    else none

unfoldable pub set_defaults : Metadata → Metadata
set_defaults m =
    if eqb m.registry unset then record m { registry = cloudquery; registry_inferred = true } else m
