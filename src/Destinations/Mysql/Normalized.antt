-- ===== src/Destinations/Mysql/Normalized.antt =====
-- The types of MySQL, once normalized.
use cloudquery_fork4devin.Base.{◌≡◌, refl, ℕ, String, Option}
use cloudquery_fork4devin.Destinations.Mysql.{
  ArrowType, boolean, int8, int16, int32, int64, uint8, uint16, uint32, uint64, float32, float64,
  string, large_string, binary, large_binary, uuid, json, struct_type, list_type, other_type,
  timestamp, decimal128, my_sql_type_to_arrow_type, arrow_type_to_my_sql_str, normalized_type,
}

-- The types that MySQL tells apart: long texts and bytes, structs, lists and units of time are not.
abbrev pub stored : ArrowType → ArrowType
stored large_string = string
stored large_binary = binary
stored struct_type = json
stored list_type = json
stored other_type = string
stored (decimal128 p s) = string
stored (timestamp unit) = timestamp "us"
stored t = t

-- A column is normalized to the type that MySQL stores, with the width and the sign of a number kept;
-- and the type that MySQL is then given for the column is read back as that type, so that a migration
-- does not see the types of its own tables as changed.
pub my_sql_type_to_arrow_type-normalized_type :
    (parse_int : String → Option ℕ) (t : ArrowType)
    → (normalized_type parse_int t ≡ stored t)
      × (my_sql_type_to_arrow_type parse_int
            (arrow_type_to_my_sql_str (normalized_type parse_int t))
          ≡ normalized_type parse_int t)
unfolding normalized_type my_sql_type_to_arrow_type arrow_type_to_my_sql_str
my_sql_type_to_arrow_type-normalized_type f boolean = (refl, refl)
my_sql_type_to_arrow_type-normalized_type f int8 = (refl, refl)
my_sql_type_to_arrow_type-normalized_type f int16 = (refl, refl)
my_sql_type_to_arrow_type-normalized_type f int32 = (refl, refl)
my_sql_type_to_arrow_type-normalized_type f int64 = (refl, refl)
my_sql_type_to_arrow_type-normalized_type f uint8 = (refl, refl)
my_sql_type_to_arrow_type-normalized_type f uint16 = (refl, refl)
my_sql_type_to_arrow_type-normalized_type f uint32 = (refl, refl)
my_sql_type_to_arrow_type-normalized_type f uint64 = (refl, refl)
my_sql_type_to_arrow_type-normalized_type f float32 = (refl, refl)
my_sql_type_to_arrow_type-normalized_type f float64 = (refl, refl)
my_sql_type_to_arrow_type-normalized_type f string = (refl, refl)
my_sql_type_to_arrow_type-normalized_type f large_string = (refl, refl)
my_sql_type_to_arrow_type-normalized_type f binary = (refl, refl)
my_sql_type_to_arrow_type-normalized_type f large_binary = (refl, refl)
my_sql_type_to_arrow_type-normalized_type f uuid = (refl, refl)
my_sql_type_to_arrow_type-normalized_type f json = (refl, refl)
my_sql_type_to_arrow_type-normalized_type f struct_type = (refl, refl)
my_sql_type_to_arrow_type-normalized_type f list_type = (refl, refl)
my_sql_type_to_arrow_type-normalized_type f other_type = (refl, refl)
my_sql_type_to_arrow_type-normalized_type f (timestamp unit) = (refl, refl)
my_sql_type_to_arrow_type-normalized_type f (decimal128 p s) = (refl, refl)
