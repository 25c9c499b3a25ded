-- ===== src/Basic/Rows.antt =====
-- plugins/transformer/basic/client/recordupdater/record_updater.go: `DropRows`.
use cloudquery_fork4devin.Base.{
  ℕ, zero, suc, ◌-◌, Bool, true, false, String, List, [], ◌∷◌, ◌++◌, map, Option, none, some,
  Result, ok, err, length, is_empty, contains, contains_num, num_eq, if◌then◌else◌, ◌==◌,
}
use cloudquery_fork4devin.Arrow.{Arrow, Cell}
use cloudquery_fork4devin.Basic.Updater.{
  column_names, RecordUpdater, UpdateError, failed_to_concatenate,
}

-- The test on a cell: null for no value, and else equal to the value.
abbrev pub should_drop : Option String → Cell → Bool
should_drop none none = true
should_drop none (some c) = false
should_drop (some v) none = false
should_drop (some v) (some c) = c == v

-- The loop over the rows of a column, from row `i` on. `rowsToDrop` is the list of its keys.
unfoldable pub mark_column : Option String → ℕ → List Cell → List ℕ → List ℕ
mark_column value i [] drops = drops
mark_column value i (c ∷ cs) drops =
    mark_column value (suc i) cs (
      if contains_num drops i
      then drops
      else if should_drop value c
      then drops ++ i ∷ []
      else drops)

abbrev pub start_or : ℕ → Option ℕ → ℕ
start_or row none = row
start_or row (some from) = from

-- The slice that is open ends before a row.
abbrev pub close : Option ℕ → ℕ → List (ℕ × ℕ) → List (ℕ × ℕ)
close none row rest = rest
close (some from) row rest = (from, row) ∷ rest

-- The loop over the rows: `currentSliceStart` is `none` for -1. There are `k` rows left.
unfoldable pub row_slices : (ℕ → Bool) → ℕ → ℕ → ℕ → Option ℕ → List (ℕ × ℕ)
row_slices dropped rows zero row start = []
row_slices dropped rows (suc k) row start = elim (dropped row) [
  | true ↦ close start row (row_slices dropped rows k (suc row) none)
  | false ↦
      let from = start_or row start in
      let rest = row_slices dropped rows k (suc row) (some from) in
      if num_eq (suc row) rows then (from, suc row) ∷ rest else rest
]

module _ (a : Arrow) where
  -- The loop over the columns, by their names.
  unfoldable pub mark_rows :
      List String → Option String → List String → List a.Array → List ℕ → List ℕ
  mark_rows wanted value (name ∷ names) (c ∷ cs) drops =
      mark_rows wanted value names cs
        (if contains wanted name then mark_column value 0 (a.cells c) drops else drops)
  mark_rows wanted value _ _ drops = drops

  unfoldable pub kept_column : List (ℕ × ℕ) → a.Array → Option a.Array
  kept_column slices c =
      if is_empty slices
      then some (a.empty_array (a.data_type c))
      else a.concatenate (map (λ (from, to). a.slice_column c from to) slices)

  unfoldable pub kept_columns : List (ℕ × ℕ) → List a.Array → Option (List a.Array)
  unfolding kept_column
  kept_columns slices [] = some []
  kept_columns slices (c ∷ cs) = elim (kept_column slices c) [
    | none ↦ none
    | some d ↦ elim (kept_columns slices cs) [ none ↦ none | some ds ↦ some (d ∷ ds) ]
  ]

  -- `DropRows`
  unfoldable pub drop_rows :
      List String → Option String → RecordUpdater a → Result UpdateError (RecordUpdater a)
  unfolding mark_rows row_slices kept_columns
  drop_rows wanted value u =
      let r = u.batch in
      let drops = mark_rows wanted value (column_names a r) (a.columns r) [] in
      let slices = row_slices (contains_num drops) (a.num_rows r) (a.num_rows r) 0 none in
      if is_empty drops then ok u else elim (kept_columns slices (a.columns r)) [
        | none ↦ err failed_to_concatenate
        | some cols ↦
            ok (record u { batch = a.new_record (a.schema r) cols (a.num_rows r - length drops) })
      ]
