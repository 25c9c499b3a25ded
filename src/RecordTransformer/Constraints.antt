-- ===== src/RecordTransformer/Constraints.antt =====
-- What `TransformSchema` does to the constraints of the fields.
use cloudquery_fork4devin.Base.{
  ◌≡◌, refl, ◌∙◌, Bool, true, false, ◌&&◌, String, none, some, Dict, lookup, lookup-insert,
  lookup-delete, if◌then◌else◌, ◌==◌, eq_iff, arith,
}
use cloudquery_fork4devin.Arrow.{Arrow, Field}
use cloudquery_fork4devin.Arrow.Laws.{MetadataLaws}
use cloudquery_fork4devin.RecordTransformer.{
  Keys, Transformer, cq_id_column_name, transform_field, delete_if, insert_if,
}

lookup-delete_if :
    (a : Arrow) (keys : Keys) (w : Bool) (j k : String) (m : Dict String)
    → lookup k (delete_if a keys w j m) ≡ (if w && j == k then none else lookup k m)
lookup-delete_if a keys w j k m = ground (arith, lookup-delete j k m, eq_iff j k)

lookup-insert_if :
    (a : Arrow) (keys : Keys) (w : Bool) (j k v : String) (m : Dict String)
    → lookup k (insert_if a keys w j v m) ≡ (if w && j == k then some v else lookup k m)
lookup-insert_if a keys true j k v m = lookup-insert j k v m
lookup-insert_if a keys false j k v m = refl

module _ (a : Arrow) (keys : Keys) (laws : MetadataLaws a) where
  -- Of a transformed field, under any metadata key: the primary key is set for `_cq_id` where that is
  -- asked for, and else it and the uniqueness are gone where their removal is asked for; every other
  -- key is kept. The name, the type and the nullability are kept.
  pub transform_field_lem :
      (t : Transformer a keys) (f : Field a.DataType a.Metadata) (k : String)
      → (lookup k (a.to_map (transform_field a keys t f).metadata) ≡ (
          if f.name == cq_id_column_name && t.cq_id_primary_key && keys.primary_key == k
          then some keys.true_value
          else if t.remove_pks && keys.primary_key == k
          then none
          else if t.remove_unique_constraints && keys.unique == k
          then none
          else lookup k (a.to_map f.metadata)))
        × ((transform_field a keys t f).name ≡ f.name)
        × ((transform_field a keys t f).type ≡ f.type)
        × ((transform_field a keys t f).nullable ≡ f.nullable)
  unfolding transform_field
  transform_field_lem t f k = (
    laws.to_map-metadata_from _ k
        ∙ (lookup-insert_if a keys (f.name == cq_id_column_name && t.cq_id_primary_key)
              keys.primary_key k keys.true_value _
            ∙ (rw (
              lookup-delete_if a keys t.remove_pks keys.primary_key k _,
              lookup-delete_if a keys t.remove_unique_constraints keys.unique k _,
            ))),
    refl,
    refl,
    refl,
  )
