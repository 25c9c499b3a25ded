-- ===== src/TableNameChanger/Updating.antt =====
-- The update of the names of a map of tables.
use cloudquery_fork4devin.Base.{
  ◌≡◌, refl, ap, Bool, true, ◌||◌, String, [], ◌∷◌, none, Dict, lookup, insert, lookup-insert,
  is_some, ◌==◌, eq_iff, arith, Bool-cases, Option-cases, inl, inr,
}
use cloudquery_fork4devin.TableNameChanger.{
  TableNameChanger, change_of, update_table_name, update_table_names,
}

-- `_, ok := m[key]`
abbrev pub has_key : String → Dict Bool → Bool
has_key k m = is_some (lookup k m)

has_key-insert :
    (k j : String) (b : Bool) (m : Dict Bool) → has_key j (insert k b m) ≡ (k == j || has_key j m)
has_key-insert k j b m = ground (arith, lookup-insert k j b m)

-- A table is put in the new map under the name that it has at the destination.
update_table_names-cons :
    (c : TableNameChanger) (destination : String) (tables new : Dict Bool) (old : String) (b : Bool)
    → (update_table_names c destination ((old, b) ∷ tables) new).0
      ≡ (update_table_names c destination tables
          (insert (update_table_name c destination old) true new)).0
unfolding update_table_names update_table_name
update_table_names-cons c destination tables new old b =
    elim (Option-cases (change_of c destination old)) [
      | inl e ↦ rw (e, update_table_names, update_table_name) refl
      | inr (name, e) ↦ rw (e, update_table_names, update_table_name) refl
    ]

pub update_table_names-keeps :
    (c : TableNameChanger) (destination : String) (tables new : Dict Bool) (k : String)
    → has_key k new ≡ true
    → has_key k (update_table_names c destination tables new).0 ≡ true
unfolding update_table_names
update_table_names-keeps c destination [] new k h = h
update_table_names-keeps c destination ((old, b) ∷ tables) new k h =
    rw (update_table_names-cons c destination tables new old b) (
      update_table_names-keeps c destination tables _ k
        (ground (arith, has_key-insert (update_table_name c destination old) k true new, h)))

pub update_table_names-key :
    (c : TableNameChanger) (destination : String) (tables new : Dict Bool) (t : String)
    → has_key t tables ≡ true
    → has_key (update_table_name c destination t) (update_table_names c destination tables new).0
      ≡ true
unfolding lookup
update_table_names-key c destination [] new t h = cc
update_table_names-key c destination ((old, b) ∷ tables) new t h =
    let name = update_table_name c destination t in
    rw (update_table_names-cons c destination tables new old b) (elim (Bool-cases (old == t)) [
      | inl e ↦
          let same = ap (update_table_name c destination) ((eq_iff old t).0 e) in
          update_table_names-keeps c destination tables _ name (
            ground (
              arith,
              has_key-insert (update_table_name c destination old) name true new,
              eq_iff (update_table_name c destination old) name,
              same,
            ))
      | inr e ↦ update_table_names-key c destination tables _ t (ground (arith, e, h))
    ])

-- A table that keeps its name is left for the next destination.
pub update_table_names-left :
    (c : TableNameChanger) (destination : String) (tables new : Dict Bool) (t : String)
    → change_of c destination t ≡ none
    → has_key t tables ≡ true
    → has_key t (update_table_names c destination tables new).1 ≡ true
unfolding update_table_names lookup
update_table_names-left c destination [] new t e h = cc
update_table_names-left c destination ((old, b) ∷ tables) new t e h =
    let left = update_table_names-left c destination tables in
    elim (Option-cases (change_of c destination old)) [
      | inl e' ↦
          rw (e', update_table_names)
            (elim (Bool-cases (old == t)) [
              | inl same ↦ rw same refl
              | inr other ↦ ground (arith, other, h, left (insert old true new) t e)
            ])
      | inr (name, e') ↦
          rw (e', update_table_names)
            (elim (Bool-cases (old == t)) [
              | inl same ↦ cc (e', e, ap (change_of c destination) ((eq_iff old t).0 same))
              | inr other ↦ left (insert name true new) t e (ground (arith, other, h))
            ])
    ]
