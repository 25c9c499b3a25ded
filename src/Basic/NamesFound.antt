-- ===== src/Basic/NamesFound.antt =====
-- When the columns of a list of names are found.
use cloudquery_fork4devin.Base.{
  ◌≡◌, ◌↔◌, refl, ◌∙◌, ap, ℕ, suc, true, false, ◌&&◌, not, String, List, [], ◌∷◌, ok, is_empty,
  contains, ◌==◌, eq_iff, eq_refl, arith, Bool-cases, inl, inr,
}
use cloudquery_fork4devin.Basic.Names.{remove_name, col_indices, col_indices_by_names}

contains-remove_name :
    (n : String) (ms : List String) (w : String)
    → contains (remove_name n ms) w ≡ (contains ms w && not (w == n))
contains-remove_name n [] w = refl
contains-remove_name n (m ∷ ms) w =
    ground (arith, contains-remove_name n ms w, eq_iff m n, eq_iff w m, eq_iff w n)

same_name : (xs : List String) (v w : String) → (v == w) ≡ true → contains xs v ≡ contains xs w
same_name xs v w e = ap (contains xs) ((eq_iff v w).0 e)

is_empty-contains : (xs : List String) (w : String) → is_empty xs ≡ true → contains xs w ≡ false
is_empty-contains [] w e = refl
is_empty-contains (x ∷ xs) w e = cc

some_name : (xs : List String) → is_empty xs ≡ false → (w : String) × (contains xs w ≡ true)
some_name [] e = cc
some_name (x ∷ xs) e = (x, ground (arith, eq_refl x))

-- The names that are left are those that no column has.
contains-col_indices :
    (i : ℕ) (names wanted : List String) (w : String)
    → contains (col_indices i names wanted).1 w ≡ (contains wanted w && not (contains names w))
unfolding col_indices
contains-col_indices i [] wanted w = ground arith
contains-col_indices i (name ∷ names) wanted w = elim (Bool-cases (contains wanted name)) [
  | inl asked ↦
      rw (asked, col_indices)
        (contains-col_indices (suc i) names (remove_name name wanted) w
          ∙ ground (arith, contains-remove_name name wanted w))
  | inr other ↦
      rw (other, col_indices)
        (contains-col_indices (suc i) names wanted w
          ∙ ground (arith, other, eq_iff w name, same_name wanted w name))
]

-- The columns are found exactly where each name that is asked for is the name of a column.
pub col_indices_by_names_iff :
    (names wanted : List String)
    → ((found : List ℕ) × (col_indices_by_names names wanted ≡ ok found))
      ↔ ((w : String) → contains wanted w ≡ true → contains names w ≡ true)
unfolding col_indices_by_names
col_indices_by_names_iff names wanted =
    let left = contains-col_indices 0 names wanted in
    elim (Bool-cases (is_empty (col_indices 0 names wanted).1)) [
      | inl all ↦ (
        λ found w e.
            ground (arith, left w, e, is_empty-contains (col_indices 0 names wanted).1 w all),
        λ h. ((col_indices 0 names wanted).0, rw (all, col_indices_by_names) refl),
      )
      | inr missing ↦
          let (w, lost) = some_name (col_indices 0 names wanted).1 missing in
          (
            λ found. cc (rw (missing, col_indices_by_names) at found.1),
            λ h. ground (arith, left w, lost, h w),
          )
    ]
