-- ===== src/Arrow.antt =====
-- What the program uses of github.com/apache/arrow-go and of plugin-sdk's schema package, which it
-- does not implement: an interface, and the documented behaviour that theorems rest on.
pub mod Plain
pub mod Laws
use cloudquery_fork4devin.Base.{
  ℕ, Bool, String, List, [], ◌∷◌, Option, none, some, Dict, if◌then◌else◌, ◌==◌,
}

-- `arrow.Field`
pub record Field (D M : Type 0) : Type 0 where
  pub name : String
  pub type : D
  pub nullable : Bool
  pub metadata : M

module _ {D M : Type 0} where
  -- The first field of a name.
  abbrev pub find_field : String → List (Field D M) → Option (Field D M)
  find_field k [] = none
  find_field k (f ∷ fs) = if f.name == k then some f else find_field k fs

-- A cell of a column: `none` where it is null, and else its `ValueStr`.
abbrev pub Cell : Type 0
Cell = Option String

pub record Arrow : Type 1 where
  pub DataType : Type 0
  pub Metadata : Type 0
  pub Schema : Type 0
  pub Array : Type 0
  pub RecordBatch : Type 0
  pub Time : Type 0
  -- `arrow.Metadata`
  pub to_map : Metadata → Dict String
  pub metadata_from : Dict String → Metadata
  pub get_value : Metadata → String → Option String
  pub no_metadata : Metadata
  -- data types
  pub string_type : DataType
  pub timestamp_us : DataType
  pub is_string : DataType → Bool
  pub is_binary : DataType → Bool
  pub is_json : DataType → Bool
  pub is_timestamp : DataType → Bool
  -- `arrow.Schema`
  pub new_schema : List (Field DataType Metadata) → Metadata → Schema
  pub fields : Schema → List (Field DataType Metadata)
  pub metadata : Schema → Metadata
  pub has_field : Schema → String → Bool
  pub add_field : Schema → ℕ → Field DataType Metadata → Option Schema
  -- `arrow.Array`: its cells in order, and the builders' arrays
  pub data_type : Array → DataType
  pub cells : Array → List Cell
  pub string_array : List Cell → Array
  pub json_array : List Cell → Array
  pub binary_array : List Cell → Array
  pub empty_array : DataType → Array
  pub concatenate : List Array → Option Array
  -- `arrow.RecordBatch`
  pub new_record : Schema → List Array → ℕ → RecordBatch
  pub schema : RecordBatch → Schema
  pub columns : RecordBatch → List Array
  pub num_rows : RecordBatch → ℕ
  -- a column of `NewSlice(i, j)`
  pub slice_column : Array → ℕ → ℕ → Array
  pub set_column : RecordBatch → ℕ → Array → Option RecordBatch
  -- the zero value of `time.Time`
  pub zero_time : Time
  -- plugin-sdk: columns of one value, and the replacement of a column
  pub timestamp_array : Time → ℕ → Array
  pub timestamp_array_of : Time → DataType → ℕ → Option Array
  pub string_from_value : String → ℕ → Array
  pub replace_field : RecordBatch → String → Array → Option RecordBatch
