-- ===== src/Basic/Examples.antt =====
-- Tests of the model of the basic transformer, and its theorems at concrete inputs.
use cloudquery_fork4devin.Base.{
  ℕ, contains, ◌≡◌, refl, ◌↔◌, true, false, String, List, [], ◌∷◌, map, none, some, ok, All, ◌==◌,
  length,
}
use cloudquery_fork4devin.Arrow.Plain.{
  string_t, plain, PlainField, Column, Batch, plain-ArrayLaws, plain-RecordLaws,
}
use cloudquery_fork4devin.Arrow.{Cell}
use cloudquery_fork4devin.Basic.Spec.{
  TransformationSpec, columns_missing, validate, validate_from, kind_issues, template_issues,
  set_defaults,
}
use cloudquery_fork4devin.Basic.SpecRules.{FollowsRule, validate-FollowsRule}
use cloudquery_fork4devin.Basic.Updater.{RecordUpdater}
use cloudquery_fork4devin.Basic.Rows.{drop_rows}
use cloudquery_fork4devin.Basic.RowsDropped.{drop_rows_lem}
use cloudquery_fork4devin.Basic.Names.{col_indices, col_indices_by_names}
use cloudquery_fork4devin.Basic.NamesFound.{col_indices_by_names_iff}
use cloudquery_fork4devin.Basic.Matcher.{match_any, match_tables, new_matcher}
use cloudquery_fork4devin.Basic.MatcherCache.{match_tables_lem}
use cloudquery_fork4devin.Basic.Client.{Transformer, new_client}
use cloudquery_fork4devin.Basic.ClientBuild.{new_client_lem}

abbrev spec_of : String → List String → TransformationSpec
spec_of kind columns = record {
  kind = kind;
  tables = [];
  columns = columns;
  name = "";
  value = none;
  new_table_name_template = "";
}

abbrev removal_spec : TransformationSpec
removal_spec = spec_of "remove_columns" ("secret" ∷ [])

missing_columns : validate (spec_of "drop_rows" [] ∷ []) ≡ (columns_missing, "drop_rows") ∷ []
unfolding validate validate_from kind_issues template_issues
missing_columns = refl

validate-FollowsRule_example :
    (validate (removal_spec ∷ []) ≡ []) ↔ All FollowsRule (removal_spec ∷ [])
validate-FollowsRule_example = validate-FollowsRule (removal_spec ∷ [])

new_client_lem_example :
    (ts : List Transformer) × (new_client false (some (removal_spec ∷ [])) ≡ ok ts)
    × (map (λ t. t.matcher.patterns) ts ≡ map (λ sp. sp.tables) (set_defaults (removal_spec ∷ [])))
new_client_lem_example = new_client_lem (removal_spec ∷ []) (refl, tt)

match_tables_lem_example :
    match_tables (λ p t. p == t) (new_matcher ("a" ∷ [])) ("a" ∷ "b" ∷ "a" ∷ [])
    ≡ true ∷ false ∷ true ∷ []
unfolding match_any
match_tables_lem_example = match_tables_lem (λ p t. p == t) ("a" ∷ []) ("a" ∷ "b" ∷ "a" ∷ [])

abbrev field : String → PlainField
field name = record { name = name; type = string_t; nullable = true; metadata = [] }

abbrev column : List Cell → Column
column cells = record { type = string_t; cells = cells }

abbrev batch : Batch
batch = record {
  schema = record { fields = field "id" ∷ field "state" ∷ []; metadata = [] };
  columns =
      column (some "1" ∷ some "2" ∷ some "3" ∷ some "4" ∷ [])
      ∷ column (some "on" ∷ some "off" ∷ none ∷ some "on" ∷ [])
      ∷ [];
  rows = 4;
}

abbrev updater : RecordUpdater plain
updater = record { batch = batch; schema = batch.schema }

abbrev state_column : List String
state_column = "state" ∷ []

drop_rows_lem_example :
    (u' : RecordUpdater plain) × (drop_rows plain state_column (some "off") updater ≡ ok u')
    × (map (λ c. c.cells) u'.batch.columns
        ≡ (some "1" ∷ some "3" ∷ some "4" ∷ []) ∷ (some "on" ∷ none ∷ some "on" ∷ []) ∷ [])
    × All (λ c. length c.cells ≡ u'.batch.rows) u'.batch.columns
    × (u'.batch.schema ≡ batch.schema)
drop_rows_lem_example =
    drop_rows_lem plain plain-ArrayLaws plain-RecordLaws state_column (some "off") updater
      (refl, (refl, tt))

col_indices_by_names_iff_example :
    ((found : List ℕ) × (col_indices_by_names ("id" ∷ "state" ∷ []) state_column ≡ ok found))
    ↔ ((w : String) → contains state_column w ≡ true → contains ("id" ∷ "state" ∷ []) w ≡ true)
col_indices_by_names_iff_example = col_indices_by_names_iff ("id" ∷ "state" ∷ []) state_column

state_found : col_indices_by_names ("id" ∷ "state" ∷ []) state_column ≡ ok (1 ∷ [])
unfolding col_indices_by_names col_indices
state_found = refl
