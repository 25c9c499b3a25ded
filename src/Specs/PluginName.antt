-- ===== src/Specs/PluginName.antt =====
-- `BackendOptions.PluginName` of cli/internal/specs/v0/source.go: never an index out of range, and the
-- name between the first two dots.
use cloudquery_fork4devin.Base.{
  ℕ, char_eq_iff_path, ◌≡◌, ◌≢◌, refl, true, false, String, Char, code, List, [], ◌∷◌, none, some,
  append, has_prefix, split, cons_head, get_elem?, num_eq, if◌then◌else◌, arith, Bool-cases, inl,
  inr,
}
use cloudquery_fork4devin.Specs.Source.{BackendOptions, plugin_name}

abbrev pub before : ℕ → String → String
before sep String.[] = ""
before sep (String.◌∷◌ c s) =
    let rest = before sep s in if num_eq (code c) sep then "" else String.◌∷◌ c rest

get_elem?-cons_head :
    (c : Char) (xs : List String) {t : String}
    → get_elem? xs 0 ≡ some t
    → get_elem? (cons_head c xs) 0 ≡ some (String.◌∷◌ c t)
get_elem?-cons_head c [] h = cc
get_elem?-cons_head c (x ∷ xs) h = cc

split_first : (sep : ℕ) (s : String) → get_elem? (split sep s) 0 ≡ some (before sep s)
split_first sep String.[] = refl
split_first sep (String.◌∷◌ c s) = elim (Bool-cases (num_eq (code c) sep)) [
  | inl e ↦ rw e
  | inr e ↦ rw e (get_elem?-cons_head c (split sep s) (split_first sep s))
]

has_prefix-split : (s p : String) → has_prefix s p ≡ true → (t : String) × (s ≡ append p t)
has_prefix-split s String.[] h = (s, refl)
has_prefix-split String.[] (String.◌∷◌ d p) h = cc
has_prefix-split (String.◌∷◌ c s) (String.◌∷◌ d p) h =
    let (t, e) = has_prefix-split s p (ground arith) in
    (t, rw (char_eq_iff_path c d (ground arith), e))

plugin_name-ref :
    (table rest : String)
    → plugin_name (some (record { table_name = table; connection = append "@@plugins." rest }))
      ≡ some (before b'.' rest)
unfolding plugin_name
plugin_name-ref table rest = split_first b'.' rest

-- `PluginName` is "" without options and for a connection that is no plugin variable, and for
-- `@@plugins.` and a rest it is the rest up to its first dot; so no index is out of range.
pub plugin_name_lem :
    (b : BackendOptions)
    → (plugin_name none ≡ some "")
      × (has_prefix b.connection "@@plugins." ≡ false → plugin_name (some b) ≡ some "")
      × ((rest : String)
          → b.connection ≡ append "@@plugins." rest
          → plugin_name (some b) ≡ some (before b'.' rest))
      × (plugin_name (some b) ≢ none)
unfolding plugin_name
plugin_name_lem b = (
  refl,
  λ h. rw h,
  λ rest e. rw e (plugin_name-ref b.table_name rest),
  elim (Bool-cases (has_prefix b.connection "@@plugins.")) [
    | inl e ↦
        let (rest, split_at) = has_prefix-split b.connection "@@plugins." e in
        rw split_at (λ absent. cc (plugin_name-ref b.table_name rest))
    | inr e ↦ rw e (λ absent. cc)
  ],
)
