-- ===== src/Destinations/Mysql/Examples.antt =====
-- Tests of the types of MySQL, and their theorem at a concrete input.
use cloudquery_fork4devin.Base.{◌≡◌, refl, ℕ, String, Option, none, some, if◌then◌else◌, ◌==◌}
use cloudquery_fork4devin.Destinations.Mysql.{
  uint16, decimal128, my_sql_type_to_arrow_type, arrow_type_to_my_sql_str, normalized_type,
  get_precision_and_scale,
}
use cloudquery_fork4devin.Destinations.Mysql.Normalized.{my_sql_type_to_arrow_type-normalized_type}

abbrev digits : String → Option ℕ
digits s = if s == "12" then some 12 else if s == "3" then some 3 else none

my_sql_type_to_arrow_type-normalized_type_example :
    (normalized_type digits uint16 ≡ uint16)
    × (my_sql_type_to_arrow_type digits "smallint unsigned" ≡ uint16)
unfolding arrow_type_to_my_sql_str normalized_type my_sql_type_to_arrow_type
my_sql_type_to_arrow_type-normalized_type_example =
    my_sql_type_to_arrow_type-normalized_type digits uint16

decimal : my_sql_type_to_arrow_type digits "decimal(12,3)" ≡ decimal128 12 3
unfolding my_sql_type_to_arrow_type get_precision_and_scale
decimal = refl

no_scale : my_sql_type_to_arrow_type digits "numeric" ≡ decimal128 10 0
unfolding my_sql_type_to_arrow_type get_precision_and_scale
no_scale = refl
