-- ===== src/Arrow/Laws.antt =====
-- The documented behaviour of the interface's operations.
use cloudquery_fork4devin.Base.{
  true, ◌≡◌, ◌≤◌, ◌-◌, ℕ, String, List, [], ◌∷◌, ◌++◌, map, some, Dict, lookup, length, is_some,
}
use cloudquery_fork4devin.Arrow.{Arrow, Field, find_field, Cell}

-- `xs[i:j]`
module _ {ℓ} {A : Type ℓ} where
  abbrev pub take : ℕ → List A → List A
  take Prim.Native.Nat.zero xs = []
  take (Prim.Native.Nat.suc n) [] = []
  take (Prim.Native.Nat.suc n) (x ∷ xs) = x ∷ take n xs

  abbrev pub drop : ℕ → List A → List A
  drop Prim.Native.Nat.zero xs = xs
  drop (Prim.Native.Nat.suc n) [] = []
  drop (Prim.Native.Nat.suc n) (x ∷ xs) = drop n xs

  abbrev pub slice : List A → ℕ → ℕ → List A
  slice xs i j = take (j - i) (drop i xs)

  abbrev pub flatten : List (List A) → List A
  flatten [] = []
  flatten (xs ∷ r) = xs ++ flatten r

module _ (a : Arrow) where
  open a use {DataType, Metadata, Schema, Array, RecordBatch, Time}

  -- Metadata is a map from strings to strings.
  pub record MetadataLaws : Type 0 where
    pub get_value-to_map : (m : Metadata) (k : String) → a.get_value m k ≡ lookup k (a.to_map m)
    pub to_map-metadata_from :
        (d : Dict String) (k : String) → lookup k (a.to_map (a.metadata_from d)) ≡ lookup k d

  -- A schema has the fields and the metadata that it is made of.
  pub record SchemaLaws : Type 0 where
    pub fields-new_schema :
        (fs : List (Field DataType Metadata)) (m : Metadata) → a.fields (a.new_schema fs m) ≡ fs
    pub metadata-new_schema :
        (fs : List (Field DataType Metadata)) (m : Metadata) → a.metadata (a.new_schema fs m) ≡ m
    pub has_field-fields :
        (s : Schema) (k : String) → a.has_field s k ≡ is_some (find_field k (a.fields s))

  -- A record batch has the schema, the columns and the rows that it is made of.
  pub record RecordLaws : Type 0 where
    pub schema-new_record :
        (s : Schema) (cs : List Array) (n : ℕ) → a.schema (a.new_record s cs n) ≡ s
    pub columns-new_record :
        (s : Schema) (cs : List Array) (n : ℕ) → a.columns (a.new_record s cs n) ≡ cs
    pub num_rows-new_record :
        (s : Schema) (cs : List Array) (n : ℕ) → a.num_rows (a.new_record s cs n) ≡ n

  -- The replacement of a column changes no other, and keeps the schema and the rows.
  pub record ReplaceLaws : Type 0 where
    pub length-replace_field :
        (r : RecordBatch) (k : String) (c : Array) {r' : RecordBatch}
        → a.replace_field r k c ≡ some r'
        → length (a.columns r') ≡ length (a.columns r)

  -- The builders' arrays hold the cells appended, and slices and concatenations are those of the
  -- cells.
  pub record ArrayLaws : Type 0 where
    pub cells-string_array : (cs : List Cell) → a.cells (a.string_array cs) ≡ cs
    pub cells-json_array : (cs : List Cell) → a.cells (a.json_array cs) ≡ cs
    pub cells-binary_array : (cs : List Cell) → a.cells (a.binary_array cs) ≡ cs
    pub cells-empty_array : (t : DataType) → a.cells (a.empty_array t) ≡ []
    pub cells-slice_column :
        (c : Array) (i j : ℕ)
        → i ≤ j
        → j ≤ length (a.cells c)
        → a.cells (a.slice_column c i j) ≡ slice (a.cells c) i j
    pub cells-concatenate :
        (cs : List Array) {c : Array}
        → a.concatenate cs ≡ some c
        → a.cells c ≡ flatten (map a.cells cs)
    -- An error of `array.Concatenate` is of no arrays, or of arrays of different types.
    pub concatenate-slices :
        (c : Array) (s : ℕ × ℕ) (slices : List (ℕ × ℕ))
        → is_some (a.concatenate (map (λ (from, to). a.slice_column c from to) (s ∷ slices))) ≡ true
