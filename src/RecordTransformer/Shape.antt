-- ===== src/RecordTransformer/Shape.antt =====
-- The record that `Transform` makes has a column for every field of the schema that `TransformSchema`
-- makes.
use cloudquery_fork4devin.Base.{
  eq_iff, String, contains, is_some, ◌≡◌, refl, ◌∙◌, sym, ap, ℕ, ◌+◌, Bool, true, false, ◌&&◌, not,
  List, [], ◌∷◌, ◌++◌, map, Option, some, length, length-append, if◌then◌else◌, arith, Bool-cases,
  Option-cases, inl, inr,
}
use mathlib.Core.List.{map-append}
use cloudquery_fork4devin.Arrow.{Arrow, Field, find_field}
use cloudquery_fork4devin.Arrow.Laws.{SchemaLaws, RecordLaws, ReplaceLaws}
use cloudquery_fork4devin.RecordTransformer.{
  Keys, Transformer, cq_sync_time, cq_source_name, cq_sync_group_id, added_fields, transform_field,
  when_absent, transform_schema, replace_timestamp_field, add_column, transform,
}

length-map : {A B : Type 0} (f : A → B) (xs : List A) → length (map f xs) ≡ length xs
length-map f [] = refl
length-map f (x ∷ xs) = ap Prim.Native.Nat.suc (length-map f xs)

abbrev count : Bool → ℕ
count b = if b then 1 else 0

length-when : {A : Type 0} (b : Bool) (x : A) → length (if b then x ∷ [] else []) ≡ count b
length-when true x = refl
length-when false x = refl

-- A name that is wanted, where it is not one of the names.
abbrev pub new_name : Bool → String → List String → List String
new_name wanted name names = if wanted && not (contains names name) then name ∷ [] else []

find_field-contains :
    {D M : Type 0} (k : String) (fs : List (Field D M))
    → is_some (find_field k fs) ≡ contains (map (λ f. f.name) fs) k
find_field-contains k [] = refl
find_field-contains k (f ∷ fs) =
    ground (arith, find_field-contains k fs, eq_iff f.name k, eq_iff k f.name)

map-append-append :
    {A B : Type 0} (f : A → B) (xs ys zs : List A) {us vs ws : List B}
    → map f xs ≡ us
    → map f ys ≡ vs
    → map f zs ≡ ws
    → map f (xs ++ (ys ++ zs)) ≡ us ++ (vs ++ ws)
map-append-append f xs ys zs e g h =
    rw (map-append f xs (ys ++ zs)) (rw (map-append f ys zs) (rw (e, g, h) refl))

map-new_name :
    {D M : Type 0} (wanted : Bool) (f : Field D M) (names : List String)
    → map (λ f. f.name) (if wanted && not (contains names f.name) then f ∷ [] else [])
      ≡ new_name wanted f.name names
map-new_name wanted f names = elim (Bool-cases (wanted && not (contains names f.name))) [
  | inl e ↦ rw e refl
  | inr e ↦ rw e refl
]

module _ (a : Arrow) (keys : Keys) (schemas : SchemaLaws a) (records : RecordLaws a)
    (replaces : ReplaceLaws a) where
  names-transform_field :
      (t : Transformer a keys) (fs : List (Field a.DataType a.Metadata))
      → map (λ f. f.name) (map (transform_field a keys t) fs) ≡ map (λ f. f.name) fs
  unfolding transform_field
  names-transform_field t [] = refl
  names-transform_field t (f ∷ fs) = ap (λ r. f.name ∷ r) (names-transform_field t fs)

  names-when_absent :
      (wanted : Bool) (sc : a.Schema) (f : Field a.DataType a.Metadata)
      → map (λ f. f.name) (when_absent a keys wanted sc f.name f)
        ≡ new_name wanted f.name (map (λ f. f.name) (a.fields sc))
  names-when_absent wanted sc f =
      rw (schemas.has_field-fields sc f.name, find_field-contains f.name (a.fields sc))
        (map-new_name wanted f (map (λ f. f.name) (a.fields sc)))

  names-added_fields :
      (t : Transformer a keys) (sc : a.Schema)
      → let own = map (λ f. f.name) (a.fields sc) in
        map (λ f. f.name) (added_fields a keys t sc)
        ≡ new_name t.with_sync_time cq_sync_time own
          ++ (new_name t.with_source_name cq_source_name own
              ++ new_name t.with_sync_group_id cq_sync_group_id own)
  unfolding added_fields
  names-added_fields t sc =
      map-append-append (λ f. f.name) _ _ _ (names-when_absent t.with_sync_time sc _)
        (names-when_absent t.with_source_name sc _) (names-when_absent t.with_sync_group_id sc _)

  -- The names of a transformed schema's fields are, first, those of the time of the sync, of the source
  -- and of the sync group, each where the transformer is to add it and the schema has no field of that
  -- name, and then those of the schema's own fields, in order.
  pub transform_schema-names :
      (t : Transformer a keys) (sc : a.Schema)
      → let own = map (λ f. f.name) (a.fields sc) in
        map (λ f. f.name) (a.fields (transform_schema a keys t sc))
        ≡ (new_name t.with_sync_time cq_sync_time own
            ++ (new_name t.with_source_name cq_source_name own
                ++ new_name t.with_sync_group_id cq_sync_group_id own))
          ++ own
  unfolding transform_schema
  transform_schema-names t sc = rw schemas.fields-new_schema (
      names-transform_field t (added_fields a keys t sc ++ a.fields sc)
      ∙ (map-append _ (added_fields a keys t sc) (a.fields sc)
          ∙ ap (λ l. l ++ map (λ f. f.name) (a.fields sc)) (names-added_fields t sc)))

  -- What a replacement gives has as many columns.
  abbrev SameWidth : a.RecordBatch → Option a.RecordBatch → Type 0
  SameWidth r o = (r' : a.RecordBatch) → o ≡ some r' → length (a.columns r') ≡ length (a.columns r)

  replace_timestamp_field-width :
      (time : a.Time) (sc : a.Schema) (r : a.RecordBatch) (n : ℕ)
      → SameWidth r (replace_timestamp_field a keys time sc r n)
  unfolding replace_timestamp_field
  replace_timestamp_field-width time sc r n r' e =
      elim (Option-cases (find_field cq_sync_time (a.fields sc))) [
        | inl absent ↦ cc (rw (absent, replace_timestamp_field) at e)
        | inr (f, found) ↦ elim (Bool-cases (a.is_timestamp f.type)) [
          | inr other ↦ cc (rw (found, other, replace_timestamp_field) at e)
          | inl timestamp ↦ elim (Option-cases (a.timestamp_array_of time f.type n)) [
            | inl failed ↦ cc (rw (found, timestamp, failed, replace_timestamp_field) at e)
            | inr (column, made) ↦
                replaces.length-replace_field r cq_sync_time column
                  (rw (found, timestamp, made, replace_timestamp_field) at e)
          ]
        ]
      ]

  add_column-width :
      (wanted present cloud : Bool) (column : a.Array) (replacement : Option a.RecordBatch)
      (cols : List a.Array) (r : a.RecordBatch)
      → SameWidth r replacement
      → length (add_column a keys wanted present cloud column replacement (cols, r)).0
          + length
              (a.columns (add_column a keys wanted present cloud column replacement (cols, r)).1)
        ≡ count (wanted && not present) + (length cols + length (a.columns r))
  unfolding add_column
  add_column-width true false cloud column replacement cols r same =
      omega (arith, length-append cols (column ∷ []))
  add_column-width true true true column (some r') cols r same = omega (arith, same r' refl)
  add_column-width _ _ _ column _ cols r same = omega arith

  length-added_fields :
      (t : Transformer a keys) (sc : a.Schema)
      → length (added_fields a keys t sc)
        ≡ count (t.with_sync_time && not (a.has_field sc cq_sync_time))
          + (count (t.with_source_name && not (a.has_field sc cq_source_name))
              + count (t.with_sync_group_id && not (a.has_field sc cq_sync_group_id)))
  unfolding added_fields
  length-added_fields t sc =
      let b₁ = t.with_sync_time && not (a.has_field sc cq_sync_time) in
      let b₂ = t.with_source_name && not (a.has_field sc cq_source_name) in
      let b₃ = t.with_sync_group_id && not (a.has_field sc cq_sync_group_id) in
      rw length-append
        (rw length-append (rw (length-when b₁ _, length-when b₂ _, length-when b₃ _)))

  transform_schema-length :
      (t : Transformer a keys) (sc : a.Schema)
      → length (a.fields (transform_schema a keys t sc))
        ≡ length (added_fields a keys t sc) + length (a.fields sc)
  unfolding transform_schema
  transform_schema-length t sc =
      ap length (schemas.fields-new_schema _ _)
      ∙ (length-map (transform_field a keys t) (added_fields a keys t sc ++ a.fields sc)
          ∙ length-append (added_fields a keys t sc) (a.fields sc))

  -- A record with a column for each field of its schema is transformed into one with a column for
  -- each field of its schema, whatever options are on, in the cloud or not, and whether or not the
  -- columns are there and can be replaced.
  pub transform-width :
      (t : Transformer a keys) (cloud : Bool) (r : a.RecordBatch)
      → length (a.columns r) ≡ length (a.fields (a.schema r))
      → length (a.columns (transform a keys t cloud r))
        ≡ length (a.fields (a.schema (transform a keys t cloud r)))
  unfolding transform
  transform-width t cloud r h =
      let sc = a.schema r in
      let n = a.num_rows r in
      let p₁ = a.has_field sc cq_sync_time in
      let p₂ = a.has_field sc cq_source_name in
      let p₃ = a.has_field sc cq_sync_group_id in
      let c₁ = a.timestamp_array t.sync_time n in
      let c₂ = a.string_from_value t.source_name n in
      let c₃ = a.string_from_value t.sync_group_id n in
      let w₁ = replace_timestamp_field a keys t.sync_time sc r n in
      let s₁ = add_column a keys t.with_sync_time p₁ cloud c₁ w₁ ([], r) in
      let w₂ = a.replace_field s₁.1 cq_source_name c₂ in
      let s₂ = add_column a keys t.with_source_name p₂ cloud c₂ w₂ s₁ in
      let w₃ = a.replace_field s₂.1 cq_sync_group_id c₃ in
      let s₃ = add_column a keys t.with_sync_group_id p₃ cloud c₃ w₃ s₂ in
      let e₁ =
        add_column-width t.with_sync_time p₁ cloud c₁ w₁ [] r
          (replace_timestamp_field-width t.sync_time sc r n) in
      let e₂ =
        add_column-width t.with_source_name p₂ cloud c₂ w₂ s₁.0 s₁.1
          (λ r' e. replaces.length-replace_field s₁.1 cq_source_name c₂ e) in
      let e₃ =
        add_column-width t.with_sync_group_id p₃ cloud c₃ w₃ s₂.0 s₂.1
          (λ r' e. replaces.length-replace_field s₂.1 cq_sync_group_id c₃ e) in
      rw records.columns-new_record (
        rw records.schema-new_record (
          length-append s₃.0 (a.columns s₃.1)
          ∙ (omega (arith, e₁, e₂, e₃, length-added_fields t sc)
              ∙ sym (transform_schema-length t sc))))
