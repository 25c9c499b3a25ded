-- ===== src/Arrow/Plain.antt =====
-- An instance of the interface, at which the hypotheses of theorems hold: plain data.
use cloudquery_fork4devin.Base.{
  ◌≡◌, refl, ap, ℕ, Bool, true, false, String, List, [], ◌∷◌, ◌++◌, map, Option, none, some, Dict,
  lookup, length, is_some, arith, if◌then◌else◌, ◌==◌,
}
use mathlib.Core.Option
use cloudquery_fork4devin.Arrow.{Arrow, Field, find_field, Cell}
use cloudquery_fork4devin.Arrow.Laws.{
  MetadataLaws, SchemaLaws, RecordLaws, ReplaceLaws, ArrayLaws, slice, flatten,
}

-- A data type.
pub data Plain : Type 0 where
  string_t binary_t json_t timestamp_t : Plain

abbrev is_string_t : Plain → Bool
is_string_t string_t = true
is_string_t _ = false

abbrev is_binary_t : Plain → Bool
is_binary_t binary_t = true
is_binary_t _ = false

abbrev is_json_t : Plain → Bool
is_json_t json_t = true
is_json_t _ = false

abbrev is_timestamp_t : Plain → Bool
is_timestamp_t timestamp_t = true
is_timestamp_t _ = false

abbrev pub PlainField : Type 0
PlainField = Field Plain (Dict String)

pub record PlainSchema : Type 0 where
  pub fields : List PlainField
  pub metadata : Dict String

pub record Column : Type 0 where
  pub type : Plain
  pub cells : List Cell

pub record Batch : Type 0 where
  pub schema : PlainSchema
  pub columns : List Column
  pub rows : ℕ

abbrev repeat : ℕ → Cell → List Cell
repeat Prim.Native.Nat.zero c = []
repeat (Prim.Native.Nat.suc n) c = c ∷ repeat n c

abbrev replace_named : String → Column → List PlainField → List Column → List Column
replace_named k c [] cs = cs
replace_named k c (f ∷ fs) [] = []
replace_named k c (f ∷ fs) (d ∷ cs) =
    let rest = replace_named k c fs cs in if f.name == k then c ∷ rest else d ∷ rest

abbrev set_at : ℕ → Column → List Column → List Column
set_at i c [] = []
set_at Prim.Native.Nat.zero c (d ∷ cs) = c ∷ cs
set_at (Prim.Native.Nat.suc i) c (d ∷ cs) = d ∷ set_at i c cs

abbrev insert_at : ℕ → PlainField → List PlainField → Option (List PlainField)
insert_at Prim.Native.Nat.zero f fs = some (f ∷ fs)
insert_at (Prim.Native.Nat.suc i) f [] = none
insert_at (Prim.Native.Nat.suc i) f (g ∷ fs) = Option.map (λ r. g ∷ r) (insert_at i f fs)

abbrev type_of : List Column → Plain
type_of [] = string_t
type_of (c ∷ cs) = c.type

abbrev all_cells : List Column → List Cell
all_cells [] = []
all_cells (c ∷ cs) = c.cells ++ all_cells cs

abbrev pub plain : Arrow
plain = record {
  DataType = Plain;
  Metadata = Dict String;
  Schema = PlainSchema;
  Array = Column;
  RecordBatch = Batch;
  Time = String;
  to_map = λ m. m;
  metadata_from = λ m. m;
  get_value = λ m k. lookup k m;
  no_metadata = [];
  string_type = string_t;
  timestamp_us = timestamp_t;
  is_string = is_string_t;
  is_binary = is_binary_t;
  is_json = is_json_t;
  is_timestamp = is_timestamp_t;
  new_schema = λ fs m. record { fields = fs; metadata = m };
  fields = λ s. s.fields;
  metadata = λ s. s.metadata;
  has_field = λ s k. is_some (find_field k s.fields);
  add_field = λ s i f. Option.map (λ fs. record s { fields = fs }) (insert_at i f s.fields);
  data_type = λ c. c.type;
  cells = λ c. c.cells;
  string_array = λ cs. record { type = string_t; cells = cs };
  json_array = λ cs. record { type = json_t; cells = cs };
  binary_array = λ cs. record { type = binary_t; cells = cs };
  empty_array = λ t. record { type = t; cells = [] };
  concatenate = λ cs. some (record { type = type_of cs; cells = all_cells cs });
  new_record = λ s cs n. record { schema = s; columns = cs; rows = n };
  schema = λ b. b.schema;
  columns = λ b. b.columns;
  num_rows = λ b. b.rows;
  slice_column = λ c i j. record c { cells = slice c.cells i j };
  set_column = λ b i c. some (record b { columns = set_at i c b.columns });
  zero_time = "";
  timestamp_array = λ t n. record { type = timestamp_t; cells = repeat n (some t) };
  timestamp_array_of = λ t type n. some (record { type = type; cells = repeat n (some t) });
  string_from_value = λ v n. record { type = string_t; cells = repeat n (some v) };
  replace_field =
      λ b k c. some (record b { columns = replace_named k c b.schema.fields b.columns });
}

pub plain-MetadataLaws : MetadataLaws plain
plain-MetadataLaws = record { get_value-to_map = λ m k. refl; to_map-metadata_from = λ d k. refl }

pub plain-SchemaLaws : SchemaLaws plain
plain-SchemaLaws = record {
  fields-new_schema = λ fs m. refl;
  metadata-new_schema = λ fs m. refl;
  has_field-fields = λ s k. refl;
}

pub plain-RecordLaws : RecordLaws plain
plain-RecordLaws = record {
  schema-new_record = λ s cs n. refl;
  columns-new_record = λ s cs n. refl;
  num_rows-new_record = λ s cs n. refl;
}

all_cells-flatten : (cs : List Column) → all_cells cs ≡ flatten (map (λ c. c.cells) cs)
all_cells-flatten [] = refl
all_cells-flatten (c ∷ cs) = ap (λ r. c.cells ++ r) (all_cells-flatten cs)

length-replace_named :
    (k : String) (c : Column) (fs : List PlainField) (cs : List Column)
    → length (replace_named k c fs cs) ≡ length cs
length-replace_named k c [] cs = refl
length-replace_named k c (f ∷ fs) [] = refl
length-replace_named k c (f ∷ fs) (d ∷ cs) = ground (arith, length-replace_named k c fs cs)

pub plain-ReplaceLaws : ReplaceLaws plain
plain-ReplaceLaws = record {
  length-replace_field = λ r k c e. cc (length-replace_named k c r.schema.fields r.columns, e);
}

pub plain-ArrayLaws : ArrayLaws plain
plain-ArrayLaws = record {
  cells-string_array = λ cs. refl;
  cells-json_array = λ cs. refl;
  cells-binary_array = λ cs. refl;
  cells-empty_array = λ t. refl;
  cells-slice_column = λ c i j h k. refl;
  concatenate-slices = λ c s slices. refl;
  cells-concatenate = λ cs e. cc (all_cells-flatten cs, e);
}
