-- ===== src/TableNameChanger/Examples.antt =====
-- Tests of the model of the table name changer, and its theorem at a concrete input.
use cloudquery_fork4devin.Base.{
  ◌≡◌, refl, String, [], ◌∷◌, some, ok, lookup, insert, if◌then◌else◌, ◌&&◌, not, ◌==◌,
}
use cloudquery_fork4devin.TableNameChanger.{
  TableNameChanger, change_of, is_learned, new_table_name_changer, learn_table_name_change,
  update_table_name, update_table_names_slice,
}
use cloudquery_fork4devin.TableNameChanger.Learning.{learn_table_name_change_lem}

abbrev changer : TableNameChanger
changer = ("pg", []) ∷ ("file", ("a", "b") ∷ []) ∷ []

two_destinations : new_table_name_changer ("pg" ∷ "file" ∷ []) [] ≡ ("pg", []) ∷ ("file", []) ∷ []
unfolding new_table_name_changer insert
two_destinations = refl

updated : update_table_names_slice changer "file" ("a" ∷ "c" ∷ []) ≡ "b" ∷ "c" ∷ []
unfolding update_table_names_slice update_table_name lookup
updated = refl

learn_table_name_change_lem_example :
    (c' : TableNameChanger) × (learn_table_name_change changer "pg" "users" (some (some "people"))
      ≡ ok c')
    × ((other table : String)
        → update_table_name c' other table ≡ (
            if "pg" == other
              && "users" == table
              && not (is_learned (change_of changer "pg" "users"))
            then "people"
            else update_table_name changer other table))
unfolding lookup
learn_table_name_change_lem_example =
    learn_table_name_change_lem changer "pg" "users" "people" [] refl
