-- ===== src/Sync/PluginEnvRules.antt =====
-- Which environment variables a plugin gets.
use cloudquery_fork4devin.Base.{
  ◌≡◌, refl, Bool, true, String, List, [], ◌∷◌, ◌++◌, Option, none, some, Dict, insert, lookup,
  is_some, strip_prefix, Member, here, there, Member-append_cases, inl, inr, Bool-cases, ◌==◌,
}
use cloudquery_fork4devin.Sync.PluginEnv.{
  EnvState, is_overridable, is_shared, plugin_prefix, get_env_key, note_specific, add_stripped,
  read_variable, read_variables, add_globals, filter_plugin_env,
}

-- How a variable comes from one of the environment.
pub data Allowed (prefix : String) (environ : List String) : String → Type 0 where
  shared : {v : String} → Member v environ → is_shared v ≡ true → Allowed prefix environ v
  overridable : {v : String} → Member v environ → is_overridable v ≡ true → Allowed prefix environ v
  own :
      {v w : String} → Member w environ → strip_prefix w prefix ≡ some v → Allowed prefix environ v

pub data GlobalsFrom (environ : List String) : Dict String → Type 0 where
  no_globals : GlobalsFrom environ []
  one_global :
      {key v : String} {rest : Dict String}
      → Member v environ
      → is_overridable v ≡ true
      → GlobalsFrom environ rest
      → GlobalsFrom environ ((key, v) ∷ rest)

GlobalsFrom-insert :
    {environ : List String} (key v : String) {globals : Dict String}
    → Member v environ
    → is_overridable v ≡ true
    → GlobalsFrom environ globals
    → GlobalsFrom environ (insert key v globals)
unfolding insert
GlobalsFrom-insert key v m h no_globals = one_global m h no_globals
GlobalsFrom-insert key v m h (one_global {key = other} n g rest) =
    elim (Bool-cases (other == key)) [
      | inl e ↦ rw (e, insert) (one_global m h rest)
      | inr e ↦ rw (e, insert) (one_global n g (GlobalsFrom-insert key v m h rest))
    ]

record EnvFrom (prefix : String) (environ : List String) (s : EnvState) : Type 0 where
  plugin_vars : (v : String) → Member v s.plugin_env → Allowed prefix environ v
  globals : GlobalsFrom environ s.global_variables

module _ (prefix : String) (environ : List String) where
  plugin_vars-add :
      (v : String) (vs : List String)
      → ((w : String) → Member w vs → Allowed prefix environ w)
      → Allowed prefix environ v
      → (w : String) → Member w (vs ++ v ∷ [])
      → Allowed prefix environ w
  plugin_vars-add v vs h a w m = elim (Member-append_cases vs m) [ inl n ↦ h w n | inr n ↦ only n ]
    where
      only : {w : String} → Member w (v ∷ []) → Allowed prefix environ w
      only here = a
      only (there n) = elim n [ ]

  note_specific-EnvFrom :
      (v : String) (s : EnvState)
      → EnvFrom prefix environ s
      → EnvFrom prefix environ (note_specific v s)
  note_specific-EnvFrom v s h = elim (Bool-cases (is_overridable v)) [
    | inl e ↦ rw (e, note_specific) (record { plugin_vars = h.plugin_vars; globals = h.globals })
    | inr e ↦ rw (e, note_specific) h
  ]

  add_stripped-EnvFrom :
      (o : Option String) (w : String) (s : EnvState)
      → Member w environ
      → strip_prefix w prefix ≡ o
      → EnvFrom prefix environ s
      → EnvFrom prefix environ (add_stripped o s)
  add_stripped-EnvFrom none w s m e h = h
  add_stripped-EnvFrom (some v) w s m e h =
      note_specific-EnvFrom v (record s { plugin_env = s.plugin_env ++ v ∷ [] })
        (record {
          plugin_vars = plugin_vars-add v s.plugin_env h.plugin_vars (own m e);
          globals = h.globals;
        })

  read_variable-EnvFrom :
      (v : String) (s : EnvState)
      → Member v environ
      → EnvFrom prefix environ s
      → EnvFrom prefix environ (read_variable prefix v s)
  unfolding read_variable
  read_variable-EnvFrom v s m h = elim (Bool-cases (is_overridable v)) [
    | inl e ↦
        rw (e, read_variable)
          (record {
            plugin_vars = h.plugin_vars;
            globals = GlobalsFrom-insert (get_env_key v) v m e h.globals;
          })
    | inr e ↦ elim (Bool-cases (is_shared v)) [
      | inl e' ↦
          rw (e, e', read_variable)
            (record {
              plugin_vars = plugin_vars-add v s.plugin_env h.plugin_vars (shared m e');
              globals = h.globals;
            })
      | inr e' ↦
          rw (e, e', read_variable) (add_stripped-EnvFrom (strip_prefix v prefix) v s m refl h)
    ]
  ]

  read_variables-EnvFrom :
      (vs : List String) (s : EnvState)
      → ((v : String) → Member v vs → Member v environ)
      → EnvFrom prefix environ s
      → EnvFrom prefix environ (read_variables prefix vs s)
  unfolding read_variables
  read_variables-EnvFrom [] s inside h = h
  read_variables-EnvFrom (v ∷ vs) s inside h =
      read_variables-EnvFrom vs (read_variable prefix v s) (λ w m. inside w (there m))
        (read_variable-EnvFrom v s (inside v here) h)

  record AllAllowed (env : List String) : Type 0 where
    each : (v : String) → Member v env → Allowed prefix environ v

  add_globals-AllAllowed :
      (specific : Dict Bool) {globals : Dict String} (env : List String)
      → GlobalsFrom environ globals
      → AllAllowed env
      → AllAllowed (add_globals specific globals env)
  unfolding add_globals
  add_globals-AllAllowed specific env no_globals h = h
  add_globals-AllAllowed specific env (one_global {key} {v} {rest} m e g) h =
      elim (Bool-cases (is_some (lookup key specific))) [
        | inl b ↦ rw (b, add_globals) (add_globals-AllAllowed specific env g h)
        | inr b ↦
            rw (b, add_globals)
              (add_globals-AllAllowed specific (env ++ v ∷ []) g
                (record { each = plugin_vars-add v env h.each (overridable m e) }))
      ]

-- Each variable that a plugin gets is one of the environment: one of the three that all get, an API key
-- or an AWS variable, or one with the plugin's own prefix, without the prefix.
pub filter_plugin_env-Allowed :
    (to_upper : String → String) (environ : List String) (plugin_name kind v : String)
    → Member v (filter_plugin_env to_upper environ plugin_name kind)
    → Allowed (plugin_prefix to_upper plugin_name kind) environ v
unfolding filter_plugin_env
filter_plugin_env-Allowed to_upper environ plugin_name kind v m =
    let prefix = plugin_prefix to_upper plugin_name kind in
    let empty : EnvState = record {
      plugin_env = [];
      global_variables = [];
      specific_variables = [];
    } in
    let s = read_variables prefix environ empty in
    let from =
      read_variables-EnvFrom prefix environ environ empty (λ w n. n)
        (record { plugin_vars = λ w n. elim n [ ]; globals = no_globals }) in
    (add_globals-AllAllowed prefix environ s.specific_variables s.plugin_env from.globals
        (record { each = from.plugin_vars })).each
      v m
