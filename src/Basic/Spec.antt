-- ===== src/Basic/Spec.antt =====
-- plugins/transformer/basic/client/spec/spec.go
use cloudquery_fork4devin.Base.{
  Bool, false, ◌||◌, not, String, List, [], ◌∷◌, ◌++◌, map, Option, none, some, is_empty,
  if◌then◌else◌, ◌==◌,
}

-- The `Kind...` constants.
abbrev pub remove_columns : String
remove_columns = "remove_columns"

abbrev pub add_column : String
add_column = "add_column"

abbrev pub obfuscate_columns : String
obfuscate_columns = "obfuscate_columns"

abbrev pub change_table_names : String
change_table_names = "change_table_names"

abbrev pub add_current_timestamp_column : String
add_current_timestamp_column = "add_current_timestamp_column"

abbrev pub rename_column : String
rename_column = "rename_column"

abbrev pub add_primary_keys : String
add_primary_keys = "add_primary_keys"

abbrev pub obfuscate_sensitive_columns : String
obfuscate_sensitive_columns = "obfuscate_sensitive_columns"

abbrev pub uppercase : String
uppercase = "uppercase"

abbrev pub lowercase : String
lowercase = "lowercase"

abbrev pub drop_rows : String
drop_rows = "drop_rows"

pub record TransformationSpec : Type 0 where
  pub kind : String
  pub tables : List String
  pub columns : List String
  pub name : String
  pub value : Option String
  pub new_table_name_template : String

-- What an error that `Validate` joins says; each is told of the kind.
pub data SpecIssue : Type 0 where
  columns_missing name_value_template_given name_value_missing template_given name_missing :
      SpecIssue
  value_columns_template_given columns_given template_missing name_value_columns_given : SpecIssue
  value_given name_template_given unknown_kind template_unparsable : SpecIssue

abbrev pub SpecError : Type 0
SpecError = SpecIssue × String

-- `t.Value != nil && *t.Value != ""`
abbrev pub has_value : Option String → Bool
has_value none = false
has_value (some v) = not (v == "")

abbrev pub has : String → Bool
has s = not (s == "")

abbrev pub when : Bool → SpecIssue → List SpecIssue
when b i = if b then i ∷ [] else []

-- The defaults of each transformation.
unfoldable pub default_tables : TransformationSpec → TransformationSpec
default_tables t = if is_empty t.tables then record t { tables = t.tables ++ "*" ∷ [] } else t

-- `SetDefaults`
unfoldable pub set_defaults : List TransformationSpec → List TransformationSpec
unfolding default_tables
set_defaults ts = map default_tables ts

-- The `switch` of `Validate`.
unfoldable pub kind_issues : TransformationSpec → List SpecIssue
kind_issues t =
    let columns = not (is_empty t.columns) in
    let name = has t.name in
    let value = has_value t.value in
    let template = has t.new_table_name_template in
    if t.kind == remove_columns || t.kind == add_primary_keys || t.kind == obfuscate_columns
    then when (not columns) columns_missing
      ++ when (name || value || template) name_value_template_given
    else if t.kind == add_column
    then when (not name || not value) name_value_missing ++ when template template_given
    else if t.kind == add_current_timestamp_column
    then when (not name) name_missing
      ++ (when (value || columns || template) value_columns_template_given
          ++ when template template_given)
    else if t.kind == obfuscate_sensitive_columns
    then when columns columns_given ++ when (name || value || template) name_value_template_given
    else if t.kind == change_table_names
    then when (not template) template_missing
      ++ when (name || value || columns) name_value_columns_given
    else if t.kind == rename_column
    then when (not name || not value) name_value_missing
      ++ (when template template_given ++ when columns columns_given)
    else if t.kind == lowercase || t.kind == uppercase
    then when value value_given
      ++ (when (not columns) columns_missing ++ when (name || template) name_template_given)
    else if t.kind == drop_rows
    then when (not columns) columns_missing
    else unknown_kind ∷ []

abbrev pub blame : TransformationSpec → List SpecIssue → List SpecError
blame t issues = map (λ i. (i, t.kind)) issues

-- The test after the `switch`. It looks at the errors that are joined up to here, not at that of the
-- template: the template is parsed for nothing.
unfoldable pub template_issues : TransformationSpec → List SpecError → List SpecIssue
template_issues t [] = []
template_issues t (e ∷ es) = when (t.kind == change_table_names) template_unparsable

-- The loop of `Validate`, with the errors that are joined so far; no error is nil.
unfoldable pub validate_from : List SpecError → List TransformationSpec → List SpecError
unfolding kind_issues template_issues
validate_from errors [] = errors
validate_from errors (t ∷ ts) =
    let errors = errors ++ blame t (kind_issues t) in
    validate_from (errors ++ blame t (template_issues t errors)) ts

unfoldable pub validate : List TransformationSpec → List SpecError
unfolding validate_from
validate ts = validate_from [] ts
