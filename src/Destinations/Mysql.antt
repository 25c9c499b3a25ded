-- ===== src/Destinations/Mysql.antt =====
-- plugins/destination/mysql/client/types.go: the types of columns in MySQL.
pub mod Normalized
mod Examples
use cloudquery_fork4devin.Base.{
  Bool, true, false, ◌||◌, String, List, [], ◌∷◌, Option, none, some, ℕ, has_prefix, strip_prefix,
  split, if◌then◌else◌, ◌==◌,
}

-- The Go types of Arrow's data types that types.go names.
pub data ArrowType : Type 0 where
  boolean int8 int16 int32 int64 uint8 uint16 uint32 uint64 : ArrowType
  float32 float64 string large_string binary large_binary : ArrowType
  uuid json struct_type list_type other_type : ArrowType
  timestamp : (unit : String) → ArrowType
  decimal128 : (precision scale : ℕ) → ArrowType

-- `strings.Contains`
abbrev contains_text : String → String → Bool
contains_text String.[] p = p == ""
contains_text (String.◌∷◌ c s) p = has_prefix (String.◌∷◌ c s) p || contains_text s p

-- `isUnsigned`
abbrev pub is_unsigned : String → Bool
is_unsigned sql_type = contains_text sql_type "unsigned"

abbrev trim_prefix : String → String → String
trim_prefix s p = elim (strip_prefix s p) [ none ↦ s | some rest ↦ rest ]

-- `strings.TrimSuffix(s, ")")`
abbrev trim_close : String → String
trim_close String.[] = ""
trim_close (String.◌∷◌ c s) =
    let rest = trim_close s in if String.◌∷◌ c s == ")" then "" else String.◌∷◌ c rest

abbrev or_default : Option ℕ → ℕ → ℕ
or_default none d = d
or_default (some n) d = n

abbrev default_precision : ℕ
default_precision = 10

abbrev default_scale : ℕ
default_scale = 0

abbrev of_precision_parts : (String → Option ℕ) → List String → ℕ × ℕ
of_precision_parts parse_int (p ∷ []) = (or_default (parse_int p) default_precision, default_scale)
of_precision_parts parse_int (p ∷ s ∷ []) =
    (or_default (parse_int p) default_precision, or_default (parse_int s) default_scale)
of_precision_parts parse_int _ = (default_precision, default_scale)

-- `getPrecisionAndScale`, where `parse_int` is `strconv.ParseInt` to 32 bits, of the digits
-- that MySQL writes.
unfoldable pub get_precision_and_scale : (String → Option ℕ) → String → ℕ × ℕ
get_precision_and_scale parse_int data_type =
    let s = trim_prefix (trim_prefix data_type "decimal") "numeric" in
    if s == ""
    then (default_precision, default_scale)
    else of_precision_parts parse_int (split 44 (trim_close (trim_prefix s "(")))

abbrev signed_or : String → ArrowType → ArrowType → ArrowType
signed_or sql_type unsigned signed = if is_unsigned sql_type then unsigned else signed

abbrev named_type : String → ArrowType
named_type sql_type =
    if sql_type == "bool" || sql_type == "boolean"
    then boolean
    else if sql_type == "float"
    then float32
    else if sql_type == "double"
    then float64
    else if sql_type == "timestamp"
    then timestamp "us"
    else if sql_type == "json"
    then json
    else if sql_type == "binary" || sql_type == "blob"
    then binary
    else string

-- `mySQLTypeToArrowType`
unfoldable pub my_sql_type_to_arrow_type : (String → Option ℕ) → String → ArrowType
unfolding get_precision_and_scale
my_sql_type_to_arrow_type parse_int sql_type =
    if sql_type == "binary(16)"
    then uuid
    else if sql_type == "tinyint(1)"
    then boolean
    else if has_prefix sql_type "datetime"
    then timestamp "us"
    else if has_prefix sql_type "decimal" || has_prefix sql_type "numeric"
    then (let (precision, scale) = get_precision_and_scale parse_int sql_type in
        decimal128 precision scale)
    else if has_prefix sql_type "tinyint"
    then signed_or sql_type uint8 int8
    else if has_prefix sql_type "smallint"
    then signed_or sql_type uint16 int16
    else if has_prefix sql_type "int"
    then signed_or sql_type uint32 int32
    else if has_prefix sql_type "bigint"
    then signed_or sql_type uint64 int64
    else named_type sql_type

-- `arrowTypeToMySqlStr`
unfoldable pub arrow_type_to_my_sql_str : ArrowType → String
arrow_type_to_my_sql_str boolean = "tinyint(1)"
arrow_type_to_my_sql_str int8 = "tinyint"
arrow_type_to_my_sql_str int16 = "smallint"
arrow_type_to_my_sql_str int32 = "int"
arrow_type_to_my_sql_str int64 = "bigint"
arrow_type_to_my_sql_str uint8 = "tinyint unsigned"
arrow_type_to_my_sql_str uint16 = "smallint unsigned"
arrow_type_to_my_sql_str uint32 = "int unsigned"
arrow_type_to_my_sql_str uint64 = "bigint unsigned"
arrow_type_to_my_sql_str float32 = "float"
arrow_type_to_my_sql_str float64 = "double"
arrow_type_to_my_sql_str binary = "blob"
arrow_type_to_my_sql_str large_binary = "blob"
arrow_type_to_my_sql_str uuid = "binary(16)"
arrow_type_to_my_sql_str (timestamp unit) = "datetime(6)"
arrow_type_to_my_sql_str json = "json"
arrow_type_to_my_sql_str struct_type = "json"
arrow_type_to_my_sql_str list_type = "json"
arrow_type_to_my_sql_str _ = "text"

-- The type of `normalizeColumn`.
unfoldable pub normalized_type : (String → Option ℕ) → ArrowType → ArrowType
unfolding my_sql_type_to_arrow_type arrow_type_to_my_sql_str
normalized_type parse_int t = my_sql_type_to_arrow_type parse_int (arrow_type_to_my_sql_str t)
