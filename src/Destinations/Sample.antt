-- ===== src/Destinations/Sample.antt =====
-- An instance of what the migrations use, with tables and messages, for tests.
use cloudquery_fork4devin.Base.{
  refl, Bool, true, false, String, List, [], ◌∷◌, Option, none, some, ◌==◌, if◌then◌else◌,
}
use cloudquery_fork4devin.Destinations.Sdk.{
  TypeId, Column, Table, Change, MigrateTable, Sdk, SdkLaws, update, large_string, int64, float64,
  bool, timestamp, large_binary, string, int8,
}

abbrev pub find_column : List (Column TypeId) → String → Option (Column TypeId)
find_column [] name = none
find_column (c ∷ cs) name =
    let rest = find_column cs name in if c.name == name then some c else rest

abbrev pub find_table : List (Table TypeId) → String → Option (Table TypeId)
find_table [] name = none
find_table (t ∷ ts) name = let rest = find_table ts name in if t.name == name then some t else rest

-- A table of the same name and as many columns is unchanged; any other difference is an update.
abbrev pub find_changes : List (Column TypeId) → List (Column TypeId) → List (Change TypeId)
find_changes [] [] = []
find_changes (c ∷ cs) (d ∷ ds) = find_changes cs ds
find_changes (c ∷ cs) [] =
    record { type = update; column_name = c.name; current = c; previous = c } ∷ []
find_changes [] (c ∷ cs) =
    record { type = update; column_name = c.name; current = c; previous = c } ∷ []

-- A type is its identifier.
abbrev pub sdk : Sdk
sdk = record {
  DataType = TypeId;
  Metadata = Bool;
  id = λ t. t;
  int64_type = int64;
  float64_type = float64;
  boolean_type = bool;
  timestamp_us_type = timestamp;
  large_string_type = large_string;
  large_binary_type = large_binary;
  get = find_table;
  get_column = find_column;
  get_changes = λ new old. find_changes new.columns old.columns;
  flatten_tables = λ ts. ts;
  to_arrow_field =
      λ c. record { name = c.name; type = c.type; nullable = true; metadata = c.primary_key };
  new_column_from_arrow_field = λ f. record {
    name = f.name;
    type = f.type;
    primary_key = f.metadata;
    not_null = false;
    unique = false;
  };
}

pub sdk-SdkLaws : SdkLaws sdk
sdk-SdkLaws = record {
  id-int64 = refl;
  id-float64 = refl;
  id-boolean = refl;
  id-timestamp_us = refl;
  id-large_string = refl;
}

abbrev pub id_column : Column TypeId
id_column = record {
  name = "id";
  type = int8;
  primary_key = true;
  not_null = false;
  unique = false;
}

abbrev pub name_column : Column TypeId
name_column = record {
  name = "name";
  type = string;
  primary_key = false;
  not_null = false;
  unique = false;
}

abbrev pub users : Table TypeId
users = record { name = "users"; columns = id_column ∷ name_column ∷ []; pk_constraint_name = "" }

abbrev pub orders : Table TypeId
orders = record users { name = "orders" }

-- `users` is as it is in the database, and `orders` is forced.
abbrev pub msgs : List (MigrateTable TypeId)
msgs =
    record { table = users; migrate_force = false }
    ∷ record { table = orders; migrate_force = true }
    ∷ []
