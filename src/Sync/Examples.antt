-- ===== src/Sync/Examples.antt =====
-- Tests of the choice of a protocol version, and its theorem at a concrete input.
use cloudquery_fork4devin.Base.{
  ◌≡◌, refl, String, List, [], ◌∷◌, Option, none, some, err, here, lookup, insert, if◌then◌else◌,
  ◌==◌,
}
use cloudquery_fork4devin.Sync.Shards.{Int32, pos, num_above_total, invalid_format, parse_shard}
use cloudquery_fork4devin.Sync.ShardsAccepted.{Names, parse_shard-Names}
use cloudquery_fork4devin.Sync.PluginEnv.{
  filter_plugin_env, read_variables, read_variable, add_globals, plugin_prefix, get_env_key,
}
use cloudquery_fork4devin.Sync.PluginEnvRules.{Allowed, filter_plugin_env-Allowed}
use cloudquery_fork4devin.Sync.Versions.{
  common, upgrade_cli, upgrade_plugin, find_max_common_version, max_cli_supported, scan_plugin,
}
use cloudquery_fork4devin.Sync.VersionsCommon.{Justified, find_max_common_version_lem}

too_new : find_max_common_version (4 ∷ 5 ∷ []) (1 ∷ 2 ∷ 3 ∷ []) ≡ upgrade_cli
unfolding find_max_common_version max_cli_supported scan_plugin
too_new = refl

too_old : find_max_common_version (1 ∷ []) (2 ∷ 3 ∷ []) ≡ upgrade_plugin
unfolding find_max_common_version max_cli_supported scan_plugin
too_old = refl

find_max_common_version_lem_example : Justified (1 ∷ 2 ∷ 3 ∷ 4 ∷ []) (2 ∷ 3 ∷ []) (common 3)
unfolding find_max_common_version max_cli_supported scan_plugin
find_max_common_version_lem_example = find_max_common_version_lem (1 ∷ 2 ∷ 3 ∷ 4 ∷ []) (2 ∷ 3 ∷ [])

abbrev digits : String → Option Int32
digits s = if s == "2" then some (pos 2) else if s == "4" then some (pos 4) else none

parse_shard-Names_example : Names digits "2/4" (record { num = 2; total = 4 })
unfolding parse_shard
parse_shard-Names_example = parse_shard-Names digits "2/4" (record { num = 2; total = 4 }) refl

num_too_large : parse_shard digits "4/2" ≡ err num_above_total
unfolding parse_shard
num_too_large = refl

no_total : parse_shard digits "4" ≡ err invalid_format
unfolding parse_shard
no_total = refl

abbrev environ : List String
environ =
    "HOME=/root" ∷ "AWS_REGION=us" ∷ "__SOURCE_AWS__AWS_REGION=eu" ∷ "__SOURCE_GCP__KEY=secret" ∷ []

abbrev upper : String → String
upper s = "__SOURCE_AWS__"

filtered : filter_plugin_env upper environ "aws" "source" ≡ "HOME=/root" ∷ "AWS_REGION=eu" ∷ []
unfolding filter_plugin_env read_variables read_variable add_globals plugin_prefix get_env_key
    lookup insert
filtered = refl

filter_plugin_env-Allowed_example : Allowed "__SOURCE_AWS__" environ "HOME=/root"
unfolding filter_plugin_env read_variables read_variable add_globals plugin_prefix get_env_key
    lookup insert
filter_plugin_env-Allowed_example =
    filter_plugin_env-Allowed upper environ "aws" "source" "HOME=/root" here
