-- ===== src/Specs/Named.antt =====
-- A slice of named values and the map from the names to the values, which grow together.
use cloudquery_fork4devin.Base.{
  ◌≡◌, refl, ◌∙◌, sym, false, String, List, [], ◌∷◌, ◌++◌, Option, none, some, Dict, lookup, insert,
  lookup-insert, if◌then◌else◌, ◌==◌, eq_iff, eq_refl, arith, Member, here, there, Bool-cases, inl,
  inr, Option-cases,
}

module _ {A : Type 0} (name : A → String) where
  -- The first value of a name.
  abbrev pub find_named : String → List A → Option A
  find_named k [] = none
  find_named k (a ∷ xs) = if name a == k then some a else find_named k xs

  -- No two values have one name.
  abbrev pub IsDistinct : List A → Type 0
  IsDistinct [] = Unit
  IsDistinct (a ∷ xs) = (find_named (name a) xs ≡ none) × IsDistinct xs

  -- The map holds, under each name, the value of that name in the slice.
  abbrev pub Indexes : Dict A → List A → Type 0
  Indexes m xs = (k : String) → lookup k m ≡ find_named k xs

  find_named-append :
      (k : String) (xs : List A) (a : A)
      → find_named k xs ≡ none
      → find_named k (xs ++ a ∷ []) ≡ (if name a == k then some a else none)
  find_named-append k [] a h = refl
  find_named-append k (b ∷ xs) a h = elim (Bool-cases (name b == k)) [
    | inl e ↦ cc (rw e at h)
    | inr e ↦ rw e (find_named-append k xs a (rw e at h))
  ]

  find_named-append_some :
      (k : String) (xs : List A) (a : A) {b : A}
      → find_named k xs ≡ some b
      → find_named k (xs ++ a ∷ []) ≡ some b
  find_named-append_some k [] a h = cc
  find_named-append_some k (c ∷ xs) a h = elim (Bool-cases (name c == k)) [
    | inl e ↦ rw e (rw e at h)
    | inr e ↦ rw e (find_named-append_some k xs a (rw e at h))
  ]

  -- What is found under a name has that name.
  pub find_named-name : (k : String) (xs : List A) {a : A} → find_named k xs ≡ some a → name a ≡ k
  find_named-name k [] h = cc
  find_named-name k (b ∷ xs) h = elim (Bool-cases (name b == k)) [
    | inl e ↦ cc ((eq_iff (name b) k).0 e, rw e at h)
    | inr e ↦ find_named-name k xs (rw e at h)
  ]

  find_named-cons_none :
      (k : String) (b : A) (xs : List A)
      → find_named k (b ∷ xs) ≡ none
      → ((name b == k) ≡ false) × (find_named k xs ≡ none)
  find_named-cons_none k b xs h = ground arith

  pub IsDistinct-append :
      (xs : List A) (a : A)
      → find_named (name a) xs ≡ none
      → IsDistinct xs
      → IsDistinct (xs ++ a ∷ [])
  IsDistinct-append [] a h d = (refl, tt)
  IsDistinct-append (b ∷ xs) a h d =
      let (other, absent) = find_named-cons_none (name a) b xs h in
      (
        find_named-append (name b) xs a d.0
            ∙ (ground (arith, eq_iff (name a) (name b), eq_iff (name b) (name a))),
        IsDistinct-append xs a absent d.1,
      )

  -- Of a distinct slice each entry is found by its name.
  pub find_named-Member :
      {a : A} {xs : List A} → IsDistinct xs → Member a xs → find_named (name a) xs ≡ some a
  find_named-Member {a} d here = rw (eq_refl (name a))
  find_named-Member {a} d (there {x = b} {xs = xs} m) =
      ground (arith, eq_iff (name b) (name a), find_named-Member d.1 m, d.0)

  entry_at_end :
      (k : String) (xs : List A) (a : A)
      → find_named (name a) xs ≡ none
      → find_named k (xs ++ a ∷ []) ≡ (if name a == k then some a else find_named k xs)
  entry_at_end k xs a fresh = elim (Bool-cases (name a == k)) [
    | inl e ↦ rw e (find_named-append k xs a (rw ((eq_iff (name a) k).0 e) at fresh) ∙ rw e)
    | inr e ↦ rw e (elim (Option-cases (find_named k xs)) [
      | inl absent ↦ rw absent (find_named-append k xs a absent ∙ rw e)
      | inr (b, present) ↦ rw present (find_named-append_some k xs a present)
    ])
  ]

  -- A new name is added at the end of the slice and to the map.
  pub Indexes-insert :
      (m : Dict A) (xs : List A) (a : A)
      → lookup (name a) m ≡ none
      → Indexes m xs
      → Indexes (insert (name a) a m) (xs ++ a ∷ [])
  Indexes-insert m xs a fresh i k =
      lookup-insert (name a) k a m
      ∙ (rw (i k) (sym (entry_at_end k xs a (sym (i (name a)) ∙ fresh))))
