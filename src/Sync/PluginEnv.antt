-- ===== src/Sync/PluginEnv.antt =====
-- cli/cmd/sync.go: the environment variables that a plugin is started with.
use cloudquery_fork4devin.Base.{
  Bool, true, ◌||◌, String, List, [], ◌∷◌, ◌++◌, Option, none, some, Dict, insert, lookup, is_some,
  concat, has_prefix, strip_prefix, replace_all, code, num_eq, if◌then◌else◌,
}

-- The text before the first `=`: `strings.SplitN(v, "=", 2)[0]`.
abbrev before_equals : String → String
before_equals String.[] = ""
before_equals (String.◌∷◌ c s) =
    let rest = before_equals s in if num_eq (code c) 61 then "" else String.◌∷◌ c rest

-- `getEnvKey`
unfoldable pub get_env_key : String → String
get_env_key v = before_equals v

abbrev pub is_overridable : String → Bool
is_overridable v = has_prefix v "CLOUDQUERY_API_KEY=" || has_prefix v "AWS_"

abbrev pub is_shared : String → Bool
is_shared v =
    has_prefix v "_CQ_TEAM_NAME=" || (has_prefix v "_CQ_INSTALLATION_ID=" || has_prefix v "HOME=")

-- `strings.ToUpper` is a parameter.
unfoldable pub plugin_prefix : (String → String) → String → String → String
plugin_prefix to_upper plugin_name kind =
    to_upper (concat ("__" ∷ kind ∷ "_" ∷ replace_all plugin_name "-" "_" ∷ "__" ∷ []))

pub record EnvState : Type 0 where
  pub plugin_env : List String
  pub global_variables : Dict String
  pub specific_variables : Dict Bool

abbrev pub note_specific : String → EnvState → EnvState
note_specific v s =
    if is_overridable v
    then record s { specific_variables = insert (get_env_key v) true s.specific_variables }
    else s

abbrev pub add_stripped : Option String → EnvState → EnvState
add_stripped none s = s
add_stripped (some v) s = note_specific v (record s { plugin_env = s.plugin_env ++ v ∷ [] })

-- A step of the loop over the environment.
unfoldable pub read_variable : String → String → EnvState → EnvState
unfolding get_env_key
read_variable prefix v s =
    if is_overridable v
    then record s { global_variables = insert (get_env_key v) v s.global_variables }
    else if is_shared v
    then record s { plugin_env = s.plugin_env ++ v ∷ [] }
    else add_stripped (strip_prefix v prefix) s

unfoldable pub read_variables : String → List String → EnvState → EnvState
unfolding read_variable
read_variables prefix [] s = s
read_variables prefix (v ∷ vs) s = read_variables prefix vs (read_variable prefix v s)

-- The loop over the global variables.
unfoldable pub add_globals : Dict Bool → Dict String → List String → List String
add_globals specific [] env = env
add_globals specific ((key, v) ∷ rest) env =
    if is_some (lookup key specific)
    then add_globals specific rest env
    else add_globals specific rest (env ++ v ∷ [])

-- `filterPluginEnv`
unfoldable pub filter_plugin_env : (String → String) → List String → String → String → List String
unfolding read_variables add_globals plugin_prefix
filter_plugin_env to_upper environ plugin_name kind =
    let s =
      read_variables (plugin_prefix to_upper plugin_name kind) environ
        (record { plugin_env = []; global_variables = []; specific_variables = [] }) in
    add_globals s.specific_variables s.global_variables s.plugin_env
