-- ===== src/Basic/KeyExamples.antt =====
-- The theorem on primary keys at a concrete input, over tools that are plain functions.
use cloudquery_fork4devin.Base.{
  ◌≡◌, Bool, true, false, ◌||◌, String, List, [], ◌∷◌, none, some, ok, contains, ◌==◌, arith,
}
use cloudquery_fork4devin.Arrow.Plain.{plain, PlainSchema}
use cloudquery_fork4devin.Basic.Tools.{Tools, TableColumn}
use cloudquery_fork4devin.Basic.SchemaUpdater.{set_primary_keys}
use cloudquery_fork4devin.Basic.PrimaryKeys.{names, is_key, set_primary_keys_lem}

abbrev no_schema : PlainSchema
no_schema = record { fields = []; metadata = [] }

abbrev tools : Tools plain
tools = record {
  json_valid = λ s. true;
  json_get = λ doc path. none;
  json_set = λ doc path value. some doc;
  json_delete = λ doc path. some doc;
  sha256 = λ s. s;
  to_upper = λ s. s;
  to_lower = λ s. s;
  unmarshal_strings = λ s. none;
  execute_template = λ template old. some old;
  now = "";
  as_binary = λ c. none;
  null_value_str = "(null)";
  table_name_key = "cq:table_name";
  sensitive_columns_key = "cq:sensitive_columns";
  Rest = String;
  Table = List (TableColumn String);
  table_of_schema = λ s. none;
  table_columns = λ t. t;
  set_columns = λ t cs. cs;
  to_arrow_schema = λ t. no_schema;
  glob = λ p t. p == t;
}

abbrev column : String → Bool → TableColumn String
column name key = record { name = name; primary_key = key; unique = true; rest = "" }

abbrev columns : List (TableColumn String)
columns = column "id" true ∷ column "name" false ∷ []

name_is_column :
    (pk : String)
    → contains ("name" ∷ []) pk ≡ true
    → contains (names plain tools columns) pk ≡ true
name_is_column pk e = ground (arith, e)

set_primary_keys_lem_example :
    (ds : List (TableColumn String)) × (set_primary_keys plain tools ("name" ∷ []) columns ≡ ok ds)
    × (names plain tools ds ≡ "id" ∷ "name" ∷ [])
    × ((k : String)
        → is_key plain tools k ds ≡ (is_key plain tools k columns || contains ("name" ∷ []) k))
set_primary_keys_lem_example = set_primary_keys_lem plain tools ("name" ∷ []) columns name_is_column
