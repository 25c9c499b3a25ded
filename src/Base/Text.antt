-- ===== src/Base/Text.antt =====
-- Go's strings, walked from the front: `strings.HasPrefix`, `HasSuffix`, `Split`, `ReplaceAll`.
use Prim.Native.Nat.{ℕ, zero, suc, ◌+◌}
use Prim.Native.Char.{Char, code}
use Prim.Native.String.{String}
use mathlib.Core.Path.{◌≡◌, refl, ap}
use mathlib.Core.Bool.{Bool, true, false, ◌&&◌, ◌||◌}
use mathlib.Core.List.{List, [], ◌∷◌}
use mathlib.Core.Option.{Option, none, some}
use native.Mathlib.Omega.{arith}
use text.Mathlib.Text.{◌==◌}
use text.Mathlib.TextEquality.{Char-path}
use cloudquery_fork4devin.Base.Tests.{num_eq, if◌then◌else◌, num_eq_iff}

-- `s + t`
abbrev pub append : String → String → String
append String.[] t = t
append (String.◌∷◌ c s) t = String.◌∷◌ c (append s t)

abbrev pub concat : List String → String
concat [] = ""
concat (s ∷ r) = append s (concat r)

-- `strings.Join`
abbrev pub join : String → List String → String
join separator [] = ""
join separator (s ∷ []) = s
join separator (s ∷ t ∷ rest) = append s (append separator (join separator (t ∷ rest)))

-- The number of characters.
abbrev pub size : String → ℕ
size String.[] = 0
size (String.◌∷◌ c s) = suc (size s)

abbrev pub char_eq : Char → Char → Bool
char_eq c d = num_eq (code c) (code d)

abbrev pub has_prefix : String → String → Bool
has_prefix s String.[] = true
has_prefix String.[] (String.◌∷◌ d p) = false
has_prefix (String.◌∷◌ c s) (String.◌∷◌ d p) = char_eq c d && has_prefix s p

-- `strings.TrimPrefix`, where the prefix is there.
abbrev pub strip_prefix : String → String → Option String
strip_prefix s String.[] = some s
strip_prefix String.[] (String.◌∷◌ d p) = none
strip_prefix (String.◌∷◌ c s) (String.◌∷◌ d p) =
    let rest = strip_prefix s p in if char_eq c d then rest else none

abbrev pub has_suffix : String → String → Bool
has_suffix String.[] p = p == ""
has_suffix (String.◌∷◌ c s) p = String.◌∷◌ c s == p || has_suffix s p

-- No character of the text has this code.
abbrev pub lacks : ℕ → String → Bool
lacks k String.[] = true
lacks k (String.◌∷◌ c s) = (if num_eq (code c) k then false else true) && lacks k s

-- Puts a character in front of the first part.
abbrev pub cons_head : Char → List String → List String
cons_head c [] = String.◌∷◌ c "" ∷ []
cons_head c (s ∷ r) = String.◌∷◌ c s ∷ r

-- `strings.Split` at a separator of one character.
abbrev pub split : ℕ → String → List String
split sep String.[] = "" ∷ []
split sep (String.◌∷◌ c s) =
    let rest = split sep s in if num_eq (code c) sep then "" ∷ rest else cons_head c rest

-- `strings.SplitN` at a separator of one character, in two parts at most: `none` where the
-- separator does not occur, so that the whole text is the one part.
abbrev pub cut : ℕ → String → Option (String × String)
cut sep String.[] = none
cut sep (String.◌∷◌ c s) =
    let rest = cut sep s in
    if num_eq (code c) sep
    then some ("", s)
    else elim rest [ none ↦ none | some (a, b) ↦ some (String.◌∷◌ c a, b) ]

-- `strings.ReplaceAll` for a text to replace that is not empty. The number counts the characters
-- of a match that are still to be passed over.
abbrev pub replace_from : ℕ → String → String → String → String
replace_from skip old new String.[] = ""
replace_from (suc skip) old new (String.◌∷◌ c s) = replace_from skip old new s
replace_from zero old new (String.◌∷◌ c s) = elim (has_prefix (String.◌∷◌ c s) old) [
  | true ↦ append new (replace_from (Prim.Native.Nat.pred (size old)) old new s)
  | false ↦ String.◌∷◌ c (replace_from zero old new s)
]

abbrev pub replace_all : String → String → String → String
replace_all s old new = replace_from 0 old new s

pub append-nil : (s : String) → append s "" ≡ s
append-nil String.[] = refl
append-nil (String.◌∷◌ c s) = ap (λ t. String.◌∷◌ c t) (append-nil s)

pub append_assoc : (s t u : String) → append (append s t) u ≡ append s (append t u)
append_assoc String.[] t u = refl
append_assoc (String.◌∷◌ c s) t u = ap (λ t. String.◌∷◌ c t) (append_assoc s t u)

pub append_cancel_left : (s : String) {t u : String} → append s t ≡ append s u → t ≡ u
append_cancel_left String.[] e = e
append_cancel_left (String.◌∷◌ c s) e = append_cancel_left s (cc e)

pub char_eq_iff_path : (c d : Char) → char_eq c d ≡ true → c ≡ d
char_eq_iff_path c d h = Char-path c d ((num_eq_iff _ _).0 h)

pub size-append : (s t : String) → size (append s t) ≡ size s + size t
size-append String.[] t = omega arith
size-append (String.◌∷◌ c s) t = omega (arith, size-append s t)

pub char_eq_refl : (c : Char) → char_eq c c ≡ true
char_eq_refl c = (num_eq_iff (code c) (code c)).1 refl

pub strip_prefix-append : (p t : String) → strip_prefix (append p t) p ≡ some t
strip_prefix-append String.[] t = refl
strip_prefix-append (String.◌∷◌ c p) t = rw (char_eq_refl c) (strip_prefix-append p t)

pub has_prefix-append : (p t : String) → has_prefix (append p t) p ≡ true
has_prefix-append String.[] t = refl
has_prefix-append (String.◌∷◌ c p) t = rw (char_eq_refl c) (has_prefix-append p t)

-- `bytes.Split` at a separator that is a text and not empty.
abbrev pub split_from : ℕ → String → String → List String
split_from skip sep String.[] = "" ∷ []
split_from (suc skip) sep (String.◌∷◌ c s) = split_from skip sep s
split_from zero sep (String.◌∷◌ c s) = elim (has_prefix (String.◌∷◌ c s) sep) [
  | true ↦ "" ∷ split_from (Prim.Native.Nat.pred (size sep)) sep s
  | false ↦ cons_head c (split_from zero sep s)
]

abbrev pub split_text : String → String → List String
split_text s sep = split_from 0 sep s
