-- ===== src/Destinations/Run.antt =====
-- A run of a migration over a state, and whether it ended without an error.
use cloudquery_fork4devin.Base.{Bool, true, false, String, Option, none, some, List, [], ◌∷◌}

abbrev pub Run : Type 0 → Type 0
Run S = S → S × Bool

abbrev pub done : {S : Type 0} → Run S
done s = (s, true)

abbrev pub fail : {S : Type 0} → Run S
fail s = (s, false)

abbrev pub go_on : {S : Type 0} → S × Bool → Run S → S × Bool
go_on (s, true) g = g s
go_on (s, false) g = (s, false)

-- `g` after `f`, where `f` ends without an error.
infixl 5 ◌⟫◌
abbrev pub ◌⟫◌ : {S : Type 0} → Run S → Run S → Run S
(f ⟫ g) s = go_on (f s) g

abbrev pub for_each : {A S : Type 0} → (A → Run S) → List A → Run S
for_each f [] = done
for_each f (x ∷ xs) = f x ⟫ for_each f xs

-- The rest of a run that needs a value, or that ends with an error where there are names to report.
abbrev pub or_fail : {A S : Type 0} → Option A → (A → Run S) → Run S
or_fail none f = fail
or_fail (some x) f = f x

abbrev pub checked : {S : Type 0} → List String → Run S → Run S
checked [] f = f
checked (name ∷ names) f = fail
