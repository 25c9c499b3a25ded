-- ===== src/Basic/Tools.antt =====
-- What the basic transformer takes from other packages.
use cloudquery_fork4devin.Base.{ℕ, Bool, String, List, Option}
use cloudquery_fork4devin.Arrow.{Arrow}

-- What `gjson.Get` finds: the raw text, and the text of a string.
pub record JsonMatch : Type 0 where
  pub raw : String
  pub string : Option String

-- A column of plugin-sdk's `schema.Table`, and the rest of it.
pub record TableColumn (Rest : Type 0) : Type 0 where
  pub name : String
  pub primary_key : Bool
  pub unique : Bool
  pub rest : Rest

module _ (a : Arrow) where
  pub record Tools : Type 1 where
    -- github.com/tidwall/gjson and sjson; `none` is an error.
    pub json_valid : String → Bool
    pub json_get : String → String → Option JsonMatch
    pub json_set : String → String → String → Option String
    pub json_delete : String → String → Option String
    -- `%x` of crypto/sha256's `Sum256`
    pub sha256 : String → String
    -- strings.ToUpper and ToLower
    pub to_upper : String → String
    pub to_lower : String → String
    -- `json.Unmarshal` of a list of texts
    pub unmarshal_strings : String → Option (List String)
    -- text/template's `Parse` and `Execute`, for `OldName`
    pub execute_template : String → String → Option String
    -- `time.Now`
    pub now : a.Time
    -- the values of an `*array.Binary`
    pub as_binary : a.Array → Option (ℕ → String)
    -- `ValueStr` of a null
    pub null_value_str : String
    -- plugin-sdk: the metadata keys, and tables
    pub table_name_key : String
    pub sensitive_columns_key : String
    pub Rest : Type 0
    pub Table : Type 0
    pub table_of_schema : a.Schema → Option Table
    pub table_columns : Table → List (TableColumn Rest)
    pub set_columns : Table → List (TableColumn Rest) → Table
    pub to_arrow_schema : Table → a.Schema
    -- glob patterns
    pub glob : String → String → Bool
