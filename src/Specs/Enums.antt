-- ===== src/Specs/Enums.antt =====
-- What the five enumerations of cli/internal/specs/v0 share: the loop of their `...FromString`
-- functions, over the array of names in the order of the constants, and their JSON form.
use cloudquery_fork4devin.Base.{
  ◌≡◌, ◌∙◌, String, List, [], ◌∷◌, Option, none, some, ◌==◌, eq_iff, Result, ok, err, if◌then◌else◌,
  append, Bool-cases, inl, inr,
}

pub data EnumError : Type 0 where
  bad_json : EnumError
  unknown_kind unknown_registry invalid_write_mode : String → EnumError
  invalid_migrate_mode invalid_pk_mode : String → EnumError

module _ {A : Type 0} where
  abbrev pub value_from : (A → String) → List A → String → Option A
  value_from name [] s = none
  value_from name (a ∷ all) s = if s == name a then some a else value_from name all s

  abbrev pub or_error : Option A → EnumError → Result EnumError A
  or_error none e = err e
  or_error (some a) e = ok a

  -- `json.Unmarshal` into a string, then the lookup.
  abbrev pub decode_with :
      (String → Option String) → (String → Result EnumError A) → String → Result EnumError A
  decode_with decode from_string text = elim (decode text) [
    | none ↦ err bad_json
    | some s ↦ from_string s
  ]

  pub value_from_sound :
      (name : A → String) (all : List A) (s : String) {a : A}
      → value_from name all s ≡ some a
      → s ≡ name a
  value_from_sound name [] s h = cc
  value_from_sound name (b ∷ all) s h = elim (Bool-cases (s == name b)) [
    | inl e ↦ (eq_iff s (name b)).0 e ∙ (cc (rw e at h))
    | inr e ↦ value_from_sound name all s (rw e at h)
  ]

-- The name in quotes, which the `MarshalJSON` methods write.
abbrev pub quoted : String → String
quoted name = append "\"" (append name "\"")
