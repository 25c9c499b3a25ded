-- ===== src/Basic/RowsKept.antt =====
-- What is left of a column is its cells in the rows that are not dropped, in order: the slices of the
-- source against a filter.
use cloudquery_fork4devin.Base.{
  ++_assoc, ◌≡◌, refl, ◌∙◌, sym, ap, ℕ, zero, suc, ◌+◌, ◌-◌, ◌≤◌, ◌<◌, Bool, List, [], ◌∷◌, ◌++◌,
  Option, none, some, length, num_eq, if◌then◌else◌, arith, Bool-cases, inl, inr,
}
use cloudquery_fork4devin.Arrow.Laws.{take, drop, slice, flatten}
use cloudquery_fork4devin.Basic.Rows.{row_slices, start_or, close}

-- The entries, from position `i` on, that are not dropped.
abbrev pub kept_from {ℓ} : {A : Type ℓ} → (ℕ → Bool) → ℕ → List A → List A
kept_from dropped i [] = []
kept_from dropped i (x ∷ xs) =
    let rest = kept_from dropped (suc i) xs in if dropped i then rest else x ∷ rest

-- An open slice starts before the row, and is open only while rows are left.
abbrev IsOpen : Option ℕ → ℕ → ℕ → Type 0
IsOpen none row k = Unit
IsOpen (some from) row k = (from ≤ row) × (0 < k)

start_or-≤ : (start : Option ℕ) (row k : ℕ) → IsOpen start row k → start_or row start ≤ row
start_or-≤ none row k o = omega arith
start_or-≤ (some from) row k o = o.0

module _ {A : Type 0} where
  drop-suc : (n : ℕ) (xs : List A) {x : A} {r : List A} → drop n xs ≡ x ∷ r → drop (suc n) xs ≡ r
  drop-suc zero [] h = cc
  drop-suc zero (y ∷ ys) h = cc
  drop-suc (suc n) [] h = cc
  drop-suc (suc n) (y ∷ ys) h = drop-suc n ys h

  take-snoc :
      (n : ℕ) (xs : List A) {x : A} {r : List A}
      → drop n xs ≡ x ∷ r
      → take (suc n) xs ≡ take n xs ++ x ∷ []
  take-snoc zero [] e = cc
  take-snoc zero (y ∷ ys) e = cc
  take-snoc (suc n) [] e = cc
  take-snoc (suc n) (y ∷ ys) e = ap (λ r. y ∷ r) (take-snoc n ys e)

  drop-drop : (m n : ℕ) (xs : List A) → drop m (drop n xs) ≡ drop (n + m) xs
  drop-drop m zero xs = let e : 0 + m ≡ m = omega arith in rw e
  drop-drop zero (suc n) [] = let e : suc n + 0 ≡ suc n = omega arith in rw e
  drop-drop (suc m) (suc n) [] = let e : suc n + suc m ≡ suc (n + suc m) = omega arith in rw e
  drop-drop m (suc n) (y ∷ ys) =
      let e : suc n + m ≡ suc (n + m) = omega arith in rw e (drop-drop m n ys)

  slice-snoc :
      (from n : ℕ) (xs : List A) {x : A} {r : List A}
      → from ≤ n
      → drop n xs ≡ x ∷ r
      → slice xs from (suc n) ≡ slice xs from n ++ x ∷ []
  slice-snoc from n xs {x} {r} h e =
      let d : suc n - from ≡ suc (n - from) = omega (arith, h) in
      let s : from + (n - from) ≡ n = omega (arith, h) in
      let at_n : drop (n - from) (drop from xs) ≡ x ∷ r = drop-drop (n - from) from xs ∙ rw s e in
      rw d (take-snoc (n - from) (drop from xs) at_n)

  drop-nonempty :
      (n : ℕ) (xs : List A) → n < length xs → (x : A) × (r : List A) × (drop n xs ≡ x ∷ r)
  drop-nonempty n [] h = ground (arith, h)
  drop-nonempty zero (x ∷ xs) h = (x, xs, refl)
  drop-nonempty (suc n) (x ∷ xs) h = drop-nonempty n xs (omega (arith, h))

  slice_self : (n : ℕ) (xs : List A) → slice xs n n ≡ []
  slice_self n xs = let e : n - n ≡ 0 = omega arith in rw e

  -- What a slice that is open holds up to a row.
  abbrev opened : Option ℕ → ℕ → List A → List A
  opened none row xs = []
  opened (some from) row xs = slice xs from row

  abbrev pub slices_of : List A → List (ℕ × ℕ) → List (List A)
  slices_of xs [] = []
  slices_of xs ((from, to) ∷ r) = slice xs from to ∷ slices_of xs r

  drop-length : (n : ℕ) (xs : List A) → length xs ≡ n → drop n xs ≡ []
  drop-length zero [] e = refl
  drop-length zero (x ∷ xs) e = ground (arith, e)
  drop-length (suc n) [] e = refl
  drop-length (suc n) (x ∷ xs) e = drop-length n xs (omega (arith, e))

  flatten-close :
      (start : Option ℕ) (row : ℕ) (rest : List (ℕ × ℕ)) (xs : List A)
      → flatten (slices_of xs (close start row rest))
        ≡ opened start row xs ++ flatten (slices_of xs rest)
  flatten-close none row rest xs = refl
  flatten-close (some from) row rest xs = refl

  -- A row that stays is at the end of what the slice holds.
  opened-suc :
      (start : Option ℕ) (row k : ℕ) (xs : List A) {x : A} {r : List A}
      → IsOpen start row k
      → drop row xs ≡ x ∷ r
      → slice xs (start_or row start) (suc row) ≡ opened start row xs ++ x ∷ []
  opened-suc none row k xs {x} o d =
      slice-snoc row row xs (omega arith) d ∙ ap (λ ys. ys ++ x ∷ []) (slice_self row xs)
  opened-suc (some from) row k xs o d = slice-snoc from row xs o.0 d

  -- The slices of a list, one behind the other, are its entries in the rows that are not dropped.
  pub flatten-slices :
      (dropped : ℕ → Bool) (rows k row : ℕ) (start : Option ℕ) (xs : List A)
      → row + k ≡ rows
      → length xs ≡ rows
      → IsOpen start row k
      → flatten (slices_of xs (row_slices dropped rows k row start))
        ≡ opened start row xs ++ kept_from dropped row (drop row xs)
  unfolding row_slices
  flatten-slices dropped rows zero row none xs e l o =
      let d : drop row xs ≡ [] = drop-length row xs (omega (arith, e, l)) in rw d
  flatten-slices dropped rows zero row (some from) xs e l o = ground (arith, o.1)
  flatten-slices dropped rows (suc k) row start xs e l o =
      let (x, r, d) = drop-nonempty row xs (omega (arith, e, l)) in
      let next = drop-suc row xs d in
      elim (Bool-cases (dropped row)) [
        | inl gone ↦
            let rest = row_slices dropped rows k (suc row) none in
            let ih = flatten-slices dropped rows k (suc row) none xs (omega (arith, e)) l tt in
            rw (gone, row_slices)
              (flatten-close start row rest xs
                ∙ ap (λ ys. opened start row xs ++ ys) (ih ∙ rw (next, d) (rw gone)))
        | inr stays ↦
            let from = start_or row start in
            let rest = row_slices dropped rows k (suc row) (some from) in
            let here = opened-suc start row (suc k) xs o d in
            let tail =
              ap (λ ys. ys ++ kept_from dropped (suc row) r) here
              ∙ ++_assoc (opened start row xs) (x ∷ []) (kept_from dropped (suc row) r) in
            elim (Bool-cases (num_eq (suc row) rows)) [
              | inl last ↦
                  let z : k ≡ 0 = ground (arith, e, last) in
                  let end : drop (suc row) xs ≡ [] =
                    drop-length (suc row) xs (ground (arith, l, last)) in
                  let r_nil : r ≡ [] = sym next ∙ end in
                  rw (stays, row_slices, last, z, d)
                    (rw stays (
                      ap (λ ys. slice xs from (suc row) ++ kept_from dropped (suc row) ys)
                        (sym r_nil)
                      ∙ tail))
              | inr more ↦
                  let ih =
                    flatten-slices dropped rows k (suc row) (some from) xs (omega (arith, e)) l
                      (ground (arith, start_or-≤ start row (suc k) o), ground (arith, e, more)) in
                  rw (stays, row_slices, more, d) (rw stays (ih ∙ (rw next tail)))
            ]
      ]
