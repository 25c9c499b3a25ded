-- ===== src/Destinations/Sdk.antt =====
-- What the migrations use of plugin-sdk's schema and message packages, and of apache/arrow-go.
use cloudquery_fork4devin.Base.{Bool, String, List, ◌≡◌, Option}
use cloudquery_fork4devin.Arrow.{Field}

-- Whether a database takes a statement, after those that it was given.
abbrev pub Database : Type 0 → Type 0
Database S = List S → S → Bool

-- `arrow.Type`, by the constants that the plugins name.
pub data TypeId : Type 0 where
  binary large_binary int8 int16 int32 int64 uint8 uint16 uint32 uint64 : TypeId
  float16 float32 float64 bool timestamp string large_string other_id : TypeId

-- `schema.TableColumnChangeType`
pub data ChangeType : Type 0 where
  unknown add update remove remove_unique_constraint move_to_cq_only : ChangeType

module _ (T : Type 0) where
  -- `schema.Column`
  pub record Column : Type 0 where
    pub name : String
    pub type : T
    pub primary_key : Bool
    pub not_null : Bool
    pub unique : Bool

  -- `schema.Table`
  pub record Table : Type 0 where
    pub name : String
    pub columns : List Column
    pub pk_constraint_name : String

  -- `schema.TableColumnChange`
  pub record Change : Type 0 where
    pub type : ChangeType
    pub column_name : String
    pub current : Column
    pub previous : Column

  -- `message.WriteMigrateTable`
  pub record MigrateTable : Type 0 where
    pub table : Table
    pub migrate_force : Bool

pub record Sdk : Type 1 where
  pub DataType : Type 0
  pub Metadata : Type 0
  pub id : DataType → TypeId
  pub int64_type : DataType
  pub float64_type : DataType
  pub boolean_type : DataType
  pub timestamp_us_type : DataType
  pub large_string_type : DataType
  pub large_binary_type : DataType
  -- `Tables.Get`
  pub get : List (Table DataType) → String → Option (Table DataType)
  -- `Columns.Get`
  pub get_column : List (Column DataType) → String → Option (Column DataType)
  -- `t.GetChanges(old)`
  pub get_changes : Table DataType → Table DataType → List (Change DataType)
  pub flatten_tables : List (Table DataType) → List (Table DataType)
  pub to_arrow_field : Column DataType → Field DataType Metadata
  pub new_column_from_arrow_field : Field DataType Metadata → Column DataType

-- The identifiers of Arrow's types.
pub record SdkLaws (k : Sdk) : Type 0 where
  pub id-int64 : k.id k.int64_type ≡ int64
  pub id-float64 : k.id k.float64_type ≡ float64
  pub id-boolean : k.id k.boolean_type ≡ bool
  pub id-timestamp_us : k.id k.timestamp_us_type ≡ timestamp
  pub id-large_string : k.id k.large_string_type ≡ large_string
