-- ===== src/Basic/PrimaryKeys.antt =====
-- `AddPrimaryKeys` of plugins/transformer/basic/client/schemaupdater/schema_updater.go: when the keys
-- are found, and what becomes of the columns.
use cloudquery_fork4devin.Base.{
  ◌≡◌, refl, ◌∙◌, ap, Bool, true, false, ◌&&◌, ◌||◌, String, List, [], ◌∷◌, map, some, ok, contains,
  ◌==◌, eq_iff, eq_refl, arith, Bool-cases, inl, inr,
}
use cloudquery_fork4devin.Arrow.{Arrow}
use cloudquery_fork4devin.Basic.Tools.{Tools, TableColumn}
use cloudquery_fork4devin.Basic.SchemaUpdater.{set_primary_key, set_primary_keys}

module _ (a : Arrow) (tools : Tools a) where
  abbrev Columns : Type 0
  Columns = List (TableColumn tools.Rest)

  abbrev pub names : Columns → List String
  names cs = map (λ c. c.name) cs

  -- A column of this name is in the primary key.
  abbrev pub is_key : String → Columns → Bool
  is_key k [] = false
  is_key k (c ∷ cs) = (c.name == k && c.primary_key) || is_key k cs

  set_primary_key_lem :
      (pk : String) (cs : Columns)
      → contains (names cs) pk ≡ true
      → (ds : Columns) × (set_primary_key a tools pk cs ≡ some ds)
        × (names ds ≡ names cs)
        × ((k : String) → is_key k ds ≡ (is_key k cs || k == pk))
  set_primary_key_lem pk [] h = cc
  set_primary_key_lem pk (c ∷ cs) h = elim (Bool-cases (c.name == pk)) [
    | inl same ↦ (
      record c { primary_key = true } ∷ cs,
      rw same refl,
      refl,
      λ k. ground (arith, eq_iff c.name pk, eq_iff c.name k, eq_iff k pk, same),
    )
    | inr other ↦
        let (ds, found, kept, keys) =
          set_primary_key_lem pk cs
            (ground (arith, h, other, eq_iff c.name pk, eq_iff pk c.name)) in
        (c ∷ ds, rw (other, found) refl, ap (λ ns. c.name ∷ ns) kept, λ k. ground (arith, keys k))
  ]

  -- Where each new key is the name of a column, they are all set: the columns keep their names and
  -- order, and a name is in the primary key exactly where it was or is among the new keys.
  pub set_primary_keys_lem :
      (pks : List String) (cs : Columns)
      → ((pk : String) → contains pks pk ≡ true → contains (names cs) pk ≡ true)
      → (ds : Columns) × (set_primary_keys a tools pks cs ≡ ok ds)
        × (names ds ≡ names cs)
        × ((k : String) → is_key k ds ≡ (is_key k cs || contains pks k))
  unfolding set_primary_keys
  set_primary_keys_lem [] cs h = (cs, refl, refl, λ k. ground arith)
  set_primary_keys_lem (pk ∷ pks) cs h =
      let (ds, found, kept, keys) = set_primary_key_lem pk cs (h pk (ground (arith, eq_refl pk))) in
      let (es, rest, rest_kept, rest_keys) =
        set_primary_keys_lem pks ds
          (λ k e. ap (λ ns. contains ns k) kept ∙ h k (ground (arith, e))) in
      (
        es,
        rw (found, set_primary_keys) rest,
        rest_kept ∙ kept,
        λ k. rest_keys k ∙ ground (arith, keys k),
      )
