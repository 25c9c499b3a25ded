-- ===== src/Specs/EnumRoundTrip.antt =====
-- The names of the five enumerations of cli/internal/specs/v0 are read back as the values that they
-- name, through the `...FromString` functions and through JSON.
use cloudquery_fork4devin.Base.{
  ◌≡◌, refl, ◌↔◌, Bool, true, ◌&&◌, String, Option, none, some, List, Result, ok, leb, num_eq, not,
  code,
}
use cloudquery_fork4devin.Specs.Enums.{
  EnumError, value_from_sound, or_error, value_from, quoted, decode_with,
}
use cloudquery_fork4devin.Specs.Kind
use cloudquery_fork4devin.Specs.Registry
use cloudquery_fork4devin.Specs.WriteMode
use cloudquery_fork4devin.Specs.MigrateMode
use cloudquery_fork4devin.Specs.PkMode

Kind-round_trip : (k : Kind.Kind) → Kind.from_string (Kind.to_string k) ≡ ok k
unfolding Kind.from_string
Kind-round_trip Kind.source = refl
Kind-round_trip _ = refl

Registry-round_trip : (r : Registry.Registry) → Registry.from_string (Registry.to_string r) ≡ ok r
unfolding Registry.from_string
Registry-round_trip Registry.unset = refl
Registry-round_trip _ = refl

WriteMode-round_trip :
    (m : WriteMode.WriteMode) → WriteMode.from_string (WriteMode.to_string m) ≡ ok m
unfolding WriteMode.from_string
WriteMode-round_trip WriteMode.append = refl
WriteMode-round_trip _ = refl

MigrateMode-round_trip :
    (m : MigrateMode.MigrateMode) → MigrateMode.from_string (MigrateMode.to_string m) ≡ ok m
unfolding MigrateMode.from_string
MigrateMode-round_trip MigrateMode.safe = refl
MigrateMode-round_trip _ = refl

PkMode-round_trip : (m : PkMode.PkMode) → PkMode.from_string (PkMode.to_string m) ≡ ok m
unfolding PkMode.from_string
PkMode-round_trip PkMode.cqid = refl
PkMode-round_trip _ = refl

or_error-eq-ok :
    {A : Type 0} (o : Option A) (e : EnumError) {a : A} → or_error o e ≡ ok a → o ≡ some a
or_error-eq-ok none e h = cc
or_error-eq-ok (some a) e h = cc

from_string_sound :
    {A : Type 0} (name : A → String) (all : List A) (s : String) (e : EnumError) (a : A)
    → or_error (value_from name all s) e ≡ ok a
    → s ≡ name a
from_string_sound name all s e a h =
    value_from_sound name all s (or_error-eq-ok (value_from name all s) e h)

-- Each of the five functions accepts a text and gives a value exactly when the text is the name of
-- that value: no other text is accepted, and no two values share a name.
pub from_string_iff :
    (s : String)
    → ((k : Kind.Kind) → (Kind.from_string s ≡ ok k) ↔ (s ≡ Kind.to_string k))
      × ((r : Registry.Registry) → (Registry.from_string s ≡ ok r) ↔ (s ≡ Registry.to_string r))
      × ((m : WriteMode.WriteMode) → (WriteMode.from_string s ≡ ok m) ↔ (s ≡ WriteMode.to_string m))
      × ((m : MigrateMode.MigrateMode)
          → (MigrateMode.from_string s ≡ ok m) ↔ (s ≡ MigrateMode.to_string m))
      × ((m : PkMode.PkMode) → (PkMode.from_string s ≡ ok m) ↔ (s ≡ PkMode.to_string m))
unfolding Kind.from_string Registry.from_string WriteMode.from_string MigrateMode.from_string
    PkMode.from_string
from_string_iff s = (
  λ k. (from_string_sound Kind.to_string Kind.all_kinds s _ k, λ e. rw e (Kind-round_trip k)),
  λ r. (
    from_string_sound Registry.to_string Registry.all_registries s _ r,
    λ e. rw e (Registry-round_trip r),
  ),
  λ m. (
    from_string_sound WriteMode.to_string WriteMode.all_write_modes s _ m,
    λ e. rw e (WriteMode-round_trip m),
  ),
  λ m. (
    from_string_sound MigrateMode.to_string MigrateMode.all_migrate_modes s _ m,
    λ e. rw e (MigrateMode-round_trip m),
  ),
  λ m. (
    from_string_sound PkMode.to_string PkMode.all_pk_modes s _ m,
    λ e. rw e (PkMode-round_trip m),
  ),
)

-- No character of the text is escaped in a JSON string: printable ASCII but `"` and `\`.
abbrev pub is_plain : String → Bool
is_plain String.[] = true
is_plain (String.◌∷◌ c s) =
    leb 32 (code c)
    && leb (code c) 126
    && not (num_eq (code c) 34)
    && not (num_eq (code c) 92)
    && is_plain s

-- What `json.Unmarshal` into a string does to a text with nothing to unescape.
abbrev pub DecodesPlain : (String → Option String) → Type 0
DecodesPlain decode = (s : String) → is_plain s ≡ true → decode (quoted s) ≡ some s

names_plain :
    ((k : Kind.Kind) → is_plain (Kind.to_string k) ≡ true)
    × ((r : Registry.Registry) → is_plain (Registry.to_string r) ≡ true)
    × ((m : WriteMode.WriteMode) → is_plain (WriteMode.to_string m) ≡ true)
    × ((m : MigrateMode.MigrateMode) → is_plain (MigrateMode.to_string m) ≡ true)
    × ((m : PkMode.PkMode) → is_plain (PkMode.to_string m) ≡ true)
unfolding Kind.to_string Registry.to_string WriteMode.to_string MigrateMode.to_string
    PkMode.to_string
names_plain = (
  elim [ Kind.source ↦ refl | _ ↦ refl ],
  elim [ Registry.unset ↦ refl | _ ↦ refl ],
  elim [ WriteMode.append ↦ refl | _ ↦ refl ],
  elim [ MigrateMode.safe ↦ refl | _ ↦ refl ],
  elim [ PkMode.cqid ↦ refl | _ ↦ refl ],
)

module _ (decode : String → Option String) (plain : DecodesPlain decode) where
  decode_with-quoted :
      {A : Type 0} (name : A → String) (from_string : String → Result EnumError A)
      → ((a : A) → from_string (name a) ≡ ok a)
      → ((a : A) → is_plain (name a) ≡ true)
      → (a : A) → decode_with decode from_string (quoted (name a)) ≡ ok a
  decode_with-quoted name from_string back named a =
      rw (plain (name a) (named a), decode_with) (back a)

  -- Where `json.Unmarshal` reads a plain quoted text as the text, what `MarshalJSON` writes of a
  -- value of any of the five enumerations, `UnmarshalJSON` reads back as that value.
  pub json_round_trip :
      ((k : Kind.Kind) → Kind.unmarshal_json decode (Kind.marshal_json k) ≡ ok k)
      × ((r : Registry.Registry) → Registry.unmarshal_json decode (Registry.marshal_json r) ≡ ok r)
      × ((m : WriteMode.WriteMode)
          → WriteMode.unmarshal_json decode (WriteMode.marshal_json m) ≡ ok m)
      × ((m : MigrateMode.MigrateMode)
          → MigrateMode.unmarshal_json decode (MigrateMode.marshal_json m) ≡ ok m)
      × ((m : PkMode.PkMode) → PkMode.unmarshal_json decode (PkMode.marshal_json m) ≡ ok m)
  unfolding Kind.unmarshal_json Kind.marshal_json Registry.unmarshal_json Registry.marshal_json
      WriteMode.unmarshal_json WriteMode.marshal_json MigrateMode.unmarshal_json
      MigrateMode.marshal_json PkMode.unmarshal_json PkMode.marshal_json
  json_round_trip = (
    decode_with-quoted Kind.to_string Kind.from_string Kind-round_trip names_plain.0,
    decode_with-quoted Registry.to_string Registry.from_string Registry-round_trip names_plain.1,
    decode_with-quoted WriteMode.to_string WriteMode.from_string WriteMode-round_trip names_plain.2,
    decode_with-quoted MigrateMode.to_string MigrateMode.from_string MigrateMode-round_trip
        names_plain.3,
    decode_with-quoted PkMode.to_string PkMode.from_string PkMode-round_trip names_plain.4,
  )
