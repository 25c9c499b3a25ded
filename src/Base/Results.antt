-- ===== src/Base/Results.antt =====
-- A Go result `(A, error)`, and an error that is a list joined by `errors.Join`.
use mathlib.Core.Path.{◌≡◌, refl}
use mathlib.Core.Option.{Option, none, some}

pub data Result {ℓ} (E A : Type ℓ) : Type ℓ where
  err : E → Result E A
  ok : A → Result E A

-- The rest of a function, where a call has not failed.
infixl 5 ◌>>=◌
abbrev pub ◌>>=◌ {ℓ} : {E A B : Type ℓ} → Result E A → (A → Result E B) → Result E B
err failure >>= next = err failure
ok result >>= next = next result

-- `if err != nil { return err }` after a check that gives `none` for nil.
abbrev pub unless {ℓ} : {E D A : Type ℓ} → Option E → (E → D) → A → Result D A
unless none wrap a = ok a
unless (some e) wrap a = err (wrap e)

pub >>=-eq-ok {ℓ} :
    {E A B : Type ℓ} (call : Result E A) (next : A → Result E B) {result : B}
    → (call >>= next) ≡ ok result
    → (value : A) × (call ≡ ok value) × (next value ≡ ok result)
>>=-eq-ok (err failure) next h = cc
>>=-eq-ok (ok value) next h = (value, refl, h)

pub unless-eq-ok {ℓ} :
    {E D A : Type ℓ} (o : Option E) (wrap : E → D) (a : A) {b : A}
    → unless o wrap a ≡ ok b
    → (o ≡ none) × (a ≡ b)
unless-eq-ok none wrap a h = (refl, cc)
unless-eq-ok (some e) wrap a h = cc
