-- ===== src/Basic/RowsDropped.antt =====
-- `DropRows` against its specification: a filter of the rows.
use cloudquery_fork4devin.Base.{
  ◌≡◌, refl, ◌∙◌, sym, ap, ℕ, zero, suc, ◌+◌, ◌-◌, ◌≤◌, Bool, true, false, String, List, [], ◌∷◌,
  map, Option, none, some, ok, length, is_empty, All, contains_num, num_eq, arith, Bool-cases,
  Option-cases, inl, inr,
}
use cloudquery_fork4devin.Arrow.{Arrow, Cell}
use cloudquery_fork4devin.Arrow.Laws.{ArrayLaws, RecordLaws, flatten}
use cloudquery_fork4devin.Basic.Updater.{column_names, RecordUpdater}
use cloudquery_fork4devin.Basic.Rows.{
  close, start_or, row_slices, mark_rows, kept_column, kept_columns, drop_rows,
}
use cloudquery_fork4devin.Basic.RowsKept.{kept_from, slices_of, flatten-slices}
use cloudquery_fork4devin.Basic.RowMarks.{row_matches, mark_rows_lem}
use cloudquery_fork4devin.Basic.RowCount.{
  count, IsCounted, HasRows, mark_rows-IsCounted, length-kept_from, count-nil,
}

-- A slice ends behind its start, and in the record.
abbrev IsInside : ℕ → ℕ × ℕ → Type 0
IsInside rows (from, to) = (from ≤ to) × (to ≤ rows)

close-IsInside :
    (rows row : ℕ) (start : Option ℕ) (rest : List (ℕ × ℕ))
    → start_or row start ≤ row
    → row ≤ rows
    → All (IsInside rows) rest
    → All (IsInside rows) (close start row rest)
close-IsInside rows row none rest o h all = all
close-IsInside rows row (some from) rest o h all = ((o, h), all)

row_slices-IsInside :
    (dropped : ℕ → Bool) (rows k row : ℕ) (start : Option ℕ)
    → row + k ≡ rows
    → start_or row start ≤ row
    → All (IsInside rows) (row_slices dropped rows k row start)
unfolding row_slices
row_slices-IsInside dropped rows zero row start e o = tt
row_slices-IsInside dropped rows (suc k) row start e o =
    let from = start_or row start in
    let next : suc row + k ≡ rows = omega (arith, e) in
    elim (Bool-cases (dropped row)) [
      | inl gone ↦
          rw (gone, row_slices)
            (close-IsInside rows row start _ o (omega (arith, e))
              (row_slices-IsInside dropped rows k (suc row) none next (omega arith)))
      | inr stays ↦
          let rest =
            row_slices-IsInside dropped rows k (suc row) (some from) next (omega (arith, o)) in
          elim (Bool-cases (num_eq (suc row) rows)) [
            | inl last ↦ rw (stays, row_slices, last) ((omega (arith, o), omega (arith, e)), rest)
            | inr more ↦ rw (stays, row_slices, more) rest
          ]
    ]

kept_from-ext :
    {A : Type 0} (p q : ℕ → Bool) (i : ℕ) (xs : List A)
    → ((j : ℕ) → p j ≡ q j)
    → kept_from p i xs ≡ kept_from q i xs
kept_from-ext p q i [] h = refl
kept_from-ext p q i (x ∷ xs) h = rw (h i, kept_from-ext p q (suc i) xs h) refl

kept_from-all :
    {A : Type 0} (p : ℕ → Bool) (i : ℕ) (xs : List A)
    → ((j : ℕ) → p j ≡ false)
    → kept_from p i xs ≡ xs
kept_from-all p i [] h = refl
kept_from-all p i (x ∷ xs) h = rw (h i) (ap (λ r. x ∷ r) (kept_from-all p (suc i) xs h))

is_empty-nil : (xs : List ℕ) → is_empty xs ≡ true → xs ≡ []
is_empty-nil [] e = refl
is_empty-nil (x ∷ xs) e = cc

map-slice :
    (a : Arrow) (laws : ArrayLaws a) (rows : ℕ) (c : a.Array) (slices : List (ℕ × ℕ))
    → HasRows a rows c
    → All (IsInside rows) slices
    → map a.cells (map (λ (from, to). a.slice_column c from to) slices)
      ≡ slices_of (a.cells c) slices
map-slice a laws rows c [] h inside = refl
map-slice a laws rows c ((from, to) ∷ slices) h inside =
    rw
      (
        laws.cells-slice_column c from to inside.0.0 (omega (arith, h, inside.0.1)),
        map-slice a laws rows c slices h inside.1,
      )
      refl

module _ (a : Arrow) (laws : ArrayLaws a) where
  kept_column_lem :
      (rows : ℕ) (c : a.Array) (slices : List (ℕ × ℕ))
      → HasRows a rows c
      → All (IsInside rows) slices
      → (d : a.Array) × (kept_column a slices c ≡ some d)
        × (a.cells d ≡ flatten (slices_of (a.cells c) slices))
  unfolding kept_column
  kept_column_lem rows c [] h inside =
      (a.empty_array (a.data_type c), refl, laws.cells-empty_array (a.data_type c))
  kept_column_lem rows c (s ∷ slices) h inside =
      let all = map (λ (from, to). a.slice_column c from to) (s ∷ slices) in
      elim (Option-cases (a.concatenate all)) [
        | inl failed ↦ cc (failed, laws.concatenate-slices c s slices)
        | inr (d, made) ↦ (
          d,
          made,
          laws.cells-concatenate all made
              ∙ ap flatten (map-slice a laws rows c (s ∷ slices) h inside),
        )
      ]

  -- The columns without the rows of a list.
  abbrev columns_without : List ℕ → List a.Array → List (List Cell)
  columns_without drops cols = map (λ c. kept_from (contains_num drops) 0 (a.cells c)) cols

  kept_columns_lem :
      (rows : ℕ) (drops : List ℕ) (cols : List a.Array)
      → All (HasRows a rows) cols
      → IsCounted rows drops
      → (ds : List a.Array) × (kept_columns a
            (row_slices (contains_num drops) rows rows 0 none)
            cols
          ≡ some ds)
        × (map a.cells ds ≡ columns_without drops cols)
        × All (HasRows a (rows - length drops)) ds
  unfolding kept_columns
  kept_columns_lem rows drops [] h counted = ([], refl, refl, tt)
  kept_columns_lem rows drops (c ∷ cols) h counted =
      let dropped = contains_num drops in
      let all = row_slices dropped rows rows 0 none in
      let inside = row_slices-IsInside dropped rows rows 0 none (omega arith) (omega arith) in
      let (d, made, cells) = kept_column_lem rows c all h.0 inside in
      let (ds, rest_made, rest_cells, rest_rows) = kept_columns_lem rows drops cols h.1 counted in
      let kept = cells ∙ flatten-slices dropped rows rows 0 none (a.cells c) (omega arith) h.0 tt in
      let rows_left : HasRows a (rows - length drops) d =
        ap length kept
        ∙ omega (
          arith,
          length-kept_from dropped 0 (a.cells c),
          counted,
          ap (count dropped 0) h.0,
          h.0,
        ) in
      (
        d ∷ ds,
        rw (made, rest_made, kept_columns) refl,
        rw (kept, rest_cells) refl,
        (rows_left, rest_rows),
      )

  columns_without-nothing : (cols : List a.Array) → columns_without [] cols ≡ map a.cells cols
  columns_without-nothing [] = refl
  columns_without-nothing (c ∷ cols) =
      rw (kept_from-all (contains_num []) 0 (a.cells c) (λ j. refl), columns_without-nothing cols)
        refl

  columns_without-ext :
      (drops : List ℕ) (dropped : ℕ → Bool) (cols : List a.Array)
      → ((j : ℕ) → contains_num drops j ≡ dropped j)
      → columns_without drops cols ≡ map (λ c. kept_from dropped 0 (a.cells c)) cols
  columns_without-ext drops dropped [] h = refl
  columns_without-ext drops dropped (c ∷ cols) h =
      rw
        (
          kept_from-ext (contains_num drops) dropped 0 (a.cells c) h,
          columns_without-ext drops dropped cols h,
        )
        refl

  -- What is left of a record: the rows in which no named column has a cell to drop.
  abbrev pub rows_left : List String → Option String → a.RecordBatch → List (List Cell)
  rows_left wanted value r =
      map
        (λ c. kept_from (row_matches a wanted value (column_names a r) (a.columns r)) 0 (a.cells c))
        (a.columns r)

module _ (a : Arrow) (arrays : ArrayLaws a) (records : RecordLaws a) where
  -- A record with as many cells in each column as it has rows loses its rows without an error: of
  -- each column there are left, in order, the cells of the rows in which no named column has a cell to
  -- drop, each column has again as many cells as the record has rows, and the schema is the same.
  pub drop_rows_lem :
      (wanted : List String) (value : Option String) (u : RecordUpdater a)
      → All (HasRows a (a.num_rows u.batch)) (a.columns u.batch)
      → (u' : RecordUpdater a) × (drop_rows a wanted value u ≡ ok u')
        × (map a.cells (a.columns u'.batch) ≡ rows_left a arrays wanted value u.batch)
        × All (HasRows a (a.num_rows u'.batch)) (a.columns u'.batch)
        × (a.schema u'.batch ≡ a.schema u.batch)
  unfolding drop_rows
  drop_rows_lem wanted value u h =
      let r = u.batch in
      let names = column_names a r in
      let rows = a.num_rows r in
      let drops = mark_rows a wanted value names (a.columns r) [] in
      let marks = mark_rows_lem a wanted value names (a.columns r) [] in
      let counted =
        mark_rows-IsCounted a rows wanted value names (a.columns r) [] h (count-nil 0 rows) in
      let same = columns_without-ext a arrays drops _ (a.columns r) marks in
      let (ds, made, cells, rest) = kept_columns_lem a arrays rows drops (a.columns r) h counted in
      let new = a.new_record (a.schema r) ds (rows - length drops) in
      let left = records.columns-new_record (a.schema r) ds (rows - length drops) in
      let left_rows = records.num_rows-new_record (a.schema r) ds (rows - length drops) in
      elim (Bool-cases (is_empty drops)) [
        | inl nothing ↦ (
          u,
          rw (nothing, drop_rows) refl,
          sym (columns_without-nothing a arrays (a.columns r))
              ∙ (ap (λ ks. columns_without a arrays ks (a.columns r))
                    (sym (is_empty-nil drops nothing))
                  ∙ same),
          h,
          refl,
        )
        | inr some_rows ↦ (
          record u { batch = new },
          rw (some_rows, made, drop_rows) refl,
          ap (map a.cells) left ∙ (cells ∙ same),
          rw (left, left_rows) rest,
          records.schema-new_record (a.schema r) ds (rows - length drops),
        )
      ]
