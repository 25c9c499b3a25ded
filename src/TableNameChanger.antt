-- ===== src/TableNameChanger.antt =====
-- cli/internal/tablenamechanger/table_name_changer.go
pub mod Learning
pub mod Updating
mod Examples
use cloudquery_fork4devin.Base.{
  Bool, true, false, not, String, List, [], ◌∷◌, map, Option, none, some, Result, ok, err, Dict,
  lookup, insert, if◌then◌else◌, ◌==◌,
}

-- `tableNameChanges`: for each destination the old names with the new ones.
abbrev pub TableNameChanger : Type 0
TableNameChanger = Dict (Dict String)

-- `New`, for the names of the destinations.
unfoldable pub new_table_name_changer : List String → TableNameChanger → TableNameChanger
new_table_name_changer [] c = c
new_table_name_changer (name ∷ names) c = new_table_name_changer names (insert name [] c)

abbrev or_empty : Option (Dict String) → Dict String
or_empty none = []
or_empty (some m) = m

-- `c.tableNameChanges[destinationName][oldTableName]`
abbrev pub change_of : TableNameChanger → String → String → Option String
change_of c destination old = lookup old (or_empty (lookup destination c))

-- `UpdateTableName`
unfoldable pub update_table_name : TableNameChanger → String → String → String
update_table_name c destination old = elim (change_of c destination old) [
  | none ↦ old
  | some new ↦ new
]

-- `UpdateTableNamesSlice`
unfoldable pub update_table_names_slice : TableNameChanger → String → List String → List String
unfolding update_table_name
update_table_names_slice c destination tables = map (update_table_name c destination) tables

-- `UpdateTableNames`, from the map `new` on: the new map, and what is left of the map that it is
-- given, from which it deletes the names that have changed.
unfoldable pub update_table_names :
    TableNameChanger → String → Dict Bool → Dict Bool → Dict Bool × Dict Bool
update_table_names c destination [] new = (new, [])
update_table_names c destination ((old, b) ∷ tables) new = elim (change_of c destination old) [
  | some name ↦ update_table_names c destination tables (insert name true new)
  | none ↦
      let (result, left) = update_table_names c destination tables (insert old true new) in
      (result, (old, b) ∷ left)
]

pub data LearnError : Type 0 where
  bad_schema : LearnError
  -- the panic of a write to the nil map of an unknown destination
  nil_map : LearnError

abbrev is_learned : Option String → Bool
is_learned none = false
is_learned (some new) = not (new == "")

-- What a schema's bytes decode to: `none` is an error, and the name may be absent.
abbrev pub learn :
    TableNameChanger → String → String → Option (Option String) → Result LearnError TableNameChanger
learn c destination old none = err bad_schema
learn c destination old (some none) = ok c
learn c destination old (some (some new)) = elim (lookup destination c) [
  | none ↦ err nil_map
  | some changes ↦ ok (insert destination (insert old new changes) c)
]

-- `LearnTableNameChange`
unfoldable pub learn_table_name_change :
    TableNameChanger → String → String → Option (Option String) → Result LearnError TableNameChanger
learn_table_name_change c destination old decoded =
    if is_learned (change_of c destination old) then ok c else learn c destination old decoded
