-- ===== src/Basic/RowCount.antt =====
-- `len(rowsToDrop)` is the number of the rows that are dropped.
use cloudquery_fork4devin.Base.{
  ◌≡◌, refl, ◌∙◌, sym, ap, ℕ, zero, suc, ◌+◌, ◌≤◌, ◌<◌, Bool, true, false, ◌&&◌, String, List, [],
  ◌∷◌, ◌++◌, Option, length, length-append, All, contains, contains_num, leb, ltb, num_eq,
  num_eq_iff, if◌then◌else◌, arith, Bool-cases, inl, inr,
}
use cloudquery_fork4devin.Arrow.{Arrow, Cell}
use cloudquery_fork4devin.Basic.Rows.{should_drop, mark_column, mark_rows}
use cloudquery_fork4devin.Basic.RowsKept.{kept_from}
use cloudquery_fork4devin.Basic.RowMarks.{marked, contains_num-snoc}

-- The rows, of `k` from `i` on, that are dropped.
abbrev pub count : (ℕ → Bool) → ℕ → ℕ → ℕ
count p i zero = 0
count p i (suc k) = (if p i then 1 else 0) + count p (suc i) k

pub length-kept_from :
    {A : Type 0} (p : ℕ → Bool) (i : ℕ) (xs : List A)
    → length (kept_from p i xs) + count p i (length xs) ≡ length xs
length-kept_from p i [] = omega arith
length-kept_from p i (x ∷ xs) = ground (arith, length-kept_from p (suc i) xs)

abbrev within : ℕ → ℕ → ℕ → ℕ
within i k j = if leb i j && ltb j (i + k) then 1 else 0

count-snoc :
    (drops : List ℕ) (j i k : ℕ)
    → contains_num drops j ≡ false
    → count (contains_num (drops ++ j ∷ [])) i k ≡ count (contains_num drops) i k + within i k j
count-snoc drops j i zero h = ground arith
count-snoc drops j i (suc k) h =
    let same : num_eq j i ≡ true → contains_num drops i ≡ contains_num drops j =
      λ e. ap (contains_num drops) (sym ((num_eq_iff j i).0 e)) in
    ground (arith, count-snoc drops j (suc i) k h, contains_num-snoc drops j i, same)

pub count-nil : (i k : ℕ) → count (contains_num []) i k ≡ 0
count-nil i zero = refl
count-nil i (suc k) = omega (arith, count-nil (suc i) k)

-- Each key of the map is a row of the record, and stands there once.
abbrev pub IsCounted : ℕ → List ℕ → Type 0
IsCounted rows drops = count (contains_num drops) 0 rows ≡ length drops

marked-IsCounted :
    (rows : ℕ) (value : Option String) (i : ℕ) (c : Cell) (drops : List ℕ)
    → i < rows
    → IsCounted rows drops
    → IsCounted rows (marked value i c drops)
marked-IsCounted rows value i c drops h counted = elim (Bool-cases (contains_num drops i)) [
  | inl there ↦ rw there counted
  | inr new ↦ elim (Bool-cases (should_drop value c)) [
    | inr stays ↦ rw (new, stays) counted
    | inl gone ↦
        rw (new, gone)
          (count-snoc drops i 0 rows new ∙ ground (arith, h, counted, length-append drops (i ∷ [])))
  ]
]

mark_column-IsCounted :
    (rows : ℕ) (value : Option String) (i : ℕ) (cells : List Cell) (drops : List ℕ)
    → i + length cells ≤ rows
    → IsCounted rows drops
    → IsCounted rows (mark_column value i cells drops)
unfolding mark_column
mark_column-IsCounted rows value i [] drops h counted = counted
mark_column-IsCounted rows value i (c ∷ cs) drops h counted =
    mark_column-IsCounted rows value (suc i) cs (marked value i c drops) (omega (arith, h))
      (marked-IsCounted rows value i c drops (omega (arith, h)) counted)

module _ (a : Arrow) where
  -- A column has a cell for each row.
  abbrev pub HasRows : ℕ → a.Array → Type 0
  HasRows rows c = length (a.cells c) ≡ rows

  pub mark_rows-IsCounted :
      (rows : ℕ) (wanted : List String) (value : Option String) (names : List String)
      (cols : List a.Array) (drops : List ℕ)
      → All (HasRows rows) cols
      → IsCounted rows drops
      → IsCounted rows (mark_rows a wanted value names cols drops)
  unfolding mark_rows
  mark_rows-IsCounted rows wanted value [] cols drops h counted = counted
  mark_rows-IsCounted rows wanted value (name ∷ names) [] drops h counted = counted
  mark_rows-IsCounted rows wanted value (name ∷ names) (c ∷ cs) drops h counted =
      elim (Bool-cases (contains wanted name)) [
        | inl listed ↦
            rw (listed, mark_rows)
              (mark_rows-IsCounted rows wanted value names cs
                (mark_column value 0 (a.cells c) drops) h.1
                (mark_column-IsCounted rows value 0 (a.cells c) drops (omega (arith, h.0)) counted))
        | inr other ↦
            rw (other, mark_rows) (mark_rows-IsCounted rows wanted value names cs drops h.1 counted)
      ]
