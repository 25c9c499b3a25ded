-- ===== src/Basic/RowMarks.antt =====
-- Which rows `DropRows` marks, and how many they are.
use cloudquery_fork4devin.Base.{
  ◌≡◌, refl, ◌∙◌, ap, ℕ, zero, suc, ◌+◌, ◌<◌, Bool, false, ◌&&◌, ◌||◌, String, List, [], ◌∷◌, ◌++◌,
  Option, none, some, get_elem?, contains, contains_num, num_eq, num_eq_iff, if◌then◌else◌, arith,
}
use cloudquery_fork4devin.Arrow.{Arrow, Cell}
use cloudquery_fork4devin.Basic.Rows.{should_drop, mark_column, mark_rows}

-- The cell of a row is one to drop.
abbrev pub matches_at : Option String → List Cell → ℕ → Bool
matches_at value cells j = elim (get_elem? cells j) [ none ↦ false | some c ↦ should_drop value c ]

pub contains_num-snoc :
    (xs : List ℕ) (i j : ℕ) → contains_num (xs ++ i ∷ []) j ≡ (contains_num xs j || num_eq i j)
contains_num-snoc [] i j = ground arith
contains_num-snoc (x ∷ xs) i j = ground (arith, contains_num-snoc xs i j)

abbrev pub marked : Option String → ℕ → Cell → List ℕ → List ℕ
marked value i c drops =
    if contains_num drops i then drops else if should_drop value c then drops ++ i ∷ [] else drops

contains_num-marked :
    (value : Option String) (i : ℕ) (c : Cell) (drops : List ℕ) (j : ℕ)
    → contains_num (marked value i c drops) j
      ≡ (contains_num drops j || (num_eq i j && should_drop value c))
contains_num-marked value i c drops j = ground (arith, contains_num-snoc drops i j, num_eq_iff i j)

-- Rows above are not touched.
mark_column-below :
    (value : Option String) (i : ℕ) (cells : List Cell) (drops : List ℕ) (j : ℕ)
    → j < i
    → contains_num (mark_column value i cells drops) j ≡ contains_num drops j
unfolding mark_column
mark_column-below value i [] drops j h = refl
mark_column-below value i (c ∷ cs) drops j h =
    mark_column-below value (suc i) cs (marked value i c drops) j (omega (arith, h))
    ∙ (contains_num-marked value i c drops j ∙ ground (arith, h, num_eq_iff i j))

mark_column-at :
    (value : Option String) (i : ℕ) (cells : List Cell) (drops : List ℕ) (j : ℕ)
    → contains_num (mark_column value i cells drops) (i + j)
      ≡ (contains_num drops (i + j) || matches_at value cells j)
unfolding mark_column
mark_column-at value i [] drops j = ground arith
mark_column-at value i (c ∷ cs) drops zero =
    mark_column-below value (suc i) cs (marked value i c drops) (i + 0) (omega arith)
    ∙ (contains_num-marked value i c drops (i + 0) ∙ ground (arith, num_eq_iff i (i + 0)))
mark_column-at value i (c ∷ cs) drops (suc j) =
    let e : i + suc j ≡ suc i + j = omega arith in
    rw e (
      mark_column-at value (suc i) cs (marked value i c drops) j
      ∙ ap (λ b. b || matches_at value cs j)
          (contains_num-marked value i c drops (suc i + j)
            ∙ ground (arith, num_eq_iff i (suc i + j))))

module _ (a : Arrow) where
  -- Some column of those that are named has a cell to drop in this row.
  abbrev pub row_matches : List String → Option String → List String → List a.Array → ℕ → Bool
  row_matches wanted value (name ∷ names) (c ∷ cs) j =
      (contains wanted name && matches_at value (a.cells c) j)
      || row_matches wanted value names cs j
  row_matches wanted value _ _ j = false

  pub mark_rows_lem :
      (wanted : List String) (value : Option String) (names : List String) (cols : List a.Array)
      (drops : List ℕ) (j : ℕ)
      → contains_num (mark_rows a wanted value names cols drops) j
        ≡ (contains_num drops j || row_matches wanted value names cols j)
  unfolding mark_rows
  mark_rows_lem wanted value [] cols drops j = ground arith
  mark_rows_lem wanted value (name ∷ names) [] drops j = ground arith
  mark_rows_lem wanted value (name ∷ names) (c ∷ cs) drops j =
      let next = if contains wanted name then mark_column value 0 (a.cells c) drops else drops in
      mark_rows_lem wanted value names cs next j
      ∙ ground (
        arith,
        (let z : 0 + j ≡ j = omega arith in rw z at (mark_column-at value 0 (a.cells c) drops j)),
      )
