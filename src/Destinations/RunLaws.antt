-- ===== src/Destinations/RunLaws.antt =====
-- Invariants of a run.
use cloudquery_fork4devin.Base.{
  ◌≡◌, refl, Bool, true, false, String, Option, none, some, List, [], ◌∷◌, Member, here, there,
  if◌then◌else◌,
}
use cloudquery_fork4devin.Destinations.Run.{Run, or_fail, checked, done, fail, go_on, ◌⟫◌, for_each}

-- A list that is built by a test is empty only where no test holds.
pub nothing_added :
    {A : Type 0} (b : Bool) (x : A) (rest : List A)
    → (if b then x ∷ rest else rest) ≡ []
    → (b ≡ false) × (rest ≡ [])
nothing_added true x rest h = cc
nothing_added false x rest h = (refl, h)

pub record Only {S : Type 0} (P : S → Type 0) (f : Run S) : Type 0 where
  pub only : (s : S) → P s → P (f s).0

module _ {S : Type 0} (P : S → Type 0) where
  pub Only-done : Only P done
  Only-done = record { only = λ s h. h }

  pub Only-fail : Only P fail
  Only-fail = record { only = λ s h. h }

  after : (g : Run S) → Only P g → (r : S × Bool) → P r.0 → P (go_on r g).0
  after g hg (s, true) h = hg.only s h
  after g hg (s, false) h = h

  pub Only-⟫ : (f g : Run S) → Only P f → Only P g → Only P (f ⟫ g)
  Only-⟫ f g hf hg = record { only = λ s h. after g hg (f s) (hf.only s h) }

  pub Only-for_each :
      {A : Type 0} (f : A → Run S) (xs : List A)
      → ((x : A) → Member x xs → Only P (f x))
      → Only P (for_each f xs)
  Only-for_each f [] h = Only-done
  Only-for_each f (x ∷ xs) h =
      Only-⟫ (f x) (for_each f xs) (h x here) (Only-for_each f xs λ y m. h y (there m))

  pub Only-if :
      (b : Bool) (f g : Run S)
      → (b ≡ true → Only P f)
      → (b ≡ false → Only P g)
      → Only P (if b then f else g)
  Only-if true f g hf hg = hf refl
  Only-if false f g hf hg = hg refl

  pub Only-or_fail :
      {A : Type 0} (o : Option A) (f : A → Run S) → ((x : A) → Only P (f x)) → Only P (or_fail o f)
  Only-or_fail none f h = Only-fail
  Only-or_fail (some x) f h = h x

  pub Only-checked :
      (names : List String) (f : Run S) → (names ≡ [] → Only P f) → Only P (checked names f)
  Only-checked [] f h = h refl
  Only-checked (n ∷ names) f h = Only-fail
