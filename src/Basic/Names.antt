-- ===== src/Basic/Names.antt =====
-- plugins/transformer/basic/client/recordupdater/record_updater.go: the columns that a list of names
-- means. A map with a loop over it is an association list; the order of its entries is that in which
-- they were put in.
use cloudquery_fork4devin.Base.{
  ℕ, suc, String, List, [], ◌∷◌, Option, none, some, Result, ok, err, Dict, insert, is_empty,
  contains, cut, append, if◌then◌else◌, ◌==◌,
}
use cloudquery_fork4devin.Basic.Updater.{UpdateError, columns_not_found}

-- `jsonColumn`
pub record JsonColumn : Type 0 where
  pub column_name : String
  pub column_path : String

-- The two maps that `splitJSONColumns` fills first, by whether a name has a dot.
abbrev pub plain_names : List String → List String
plain_names [] = []
plain_names (n ∷ ns) = elim (cut b'.' n) [ none ↦ n ∷ plain_names ns | some _ ↦ plain_names ns ]

abbrev put_json : String → Option (String × String) → Dict JsonColumn → Dict JsonColumn
put_json n none m = m
put_json n (some (before, after)) m =
    insert n (record { column_name = before; column_path = after }) m

abbrev json_names : List String → Dict JsonColumn → Dict JsonColumn
json_names [] m = m
json_names (n ∷ ns) m = json_names ns (put_json n (cut b'.' n) m)

abbrev only_in : List String → List String → List String
only_in wanted [] = []
only_in wanted (n ∷ ns) =
    let rest = only_in wanted ns in if contains wanted n then n ∷ rest else rest

-- The entries of columns that are not taken whole.
abbrev without : List String → Dict JsonColumn → Dict JsonColumn
without plain [] = []
without plain ((k, jc) ∷ m) =
    let rest = without plain m in if contains plain jc.column_name then rest else (k, jc) ∷ rest

abbrev dotted : JsonColumn → String
dotted jc = append jc.column_name (append "." jc.column_path)

abbrev collect_at : String → Dict JsonColumn → Dict JsonColumn → Dict JsonColumn
collect_at name [] found = found
collect_at name ((k, jc) ∷ m) found =
    collect_at name m (if jc.column_name == name then insert (dotted jc) jc found else found)

abbrev collect : List String → Dict JsonColumn → Dict JsonColumn → Dict JsonColumn
collect [] m found = found
collect (name ∷ names) m found = collect names m (collect_at name m found)

-- `splitJSONColumns`, for the names of the record's columns.
unfoldable pub split_json_columns : List String → List String → List String × Dict JsonColumn
split_json_columns names wanted =
    let plain = only_in (plain_names wanted) names in
    (plain, collect names (without plain (json_names wanted [])) [])

abbrev pub remove_name : String → List String → List String
remove_name n [] = []
remove_name n (m ∷ ms) = let rest = remove_name n ms in if m == n then rest else m ∷ rest

-- The loop of `colIndicesByNames`: the indices, and the names that are left.
unfoldable pub col_indices : ℕ → List String → List String → List ℕ × List String
col_indices i [] wanted = ([], wanted)
col_indices i (name ∷ names) wanted =
    let (found, left) =
      col_indices (suc i) names
        (if contains wanted name then remove_name name wanted else wanted) in
    ((if contains wanted name then i ∷ found else found), left)

-- `colIndicesByNames`
unfoldable pub col_indices_by_names : List String → List String → Result UpdateError (List ℕ)
unfolding col_indices
col_indices_by_names names wanted =
    let (found, left) = col_indices 0 names wanted in
    if is_empty left then ok found else err (columns_not_found left)

abbrev json_columns_of : String → Dict JsonColumn → List JsonColumn
json_columns_of name [] = []
json_columns_of name ((k, jc) ∷ m) =
    let rest = json_columns_of name m in if jc.column_name == name then jc ∷ rest else rest

-- `jsonColIndicesByNames`: what the map has for each column, nothing for a missing key.
unfoldable pub json_col_indices_by_names : List String → Dict JsonColumn → List (List JsonColumn)
json_col_indices_by_names [] m = []
json_col_indices_by_names (name ∷ names) m =
    json_columns_of name m ∷ json_col_indices_by_names names m
