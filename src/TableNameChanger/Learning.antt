-- ===== src/TableNameChanger/Learning.antt =====
-- What is learned of a table name, and what is kept.
use cloudquery_fork4devin.Base.{
  ◌≡◌, refl, ◌∙◌, sym, ap, ◌&&◌, not, String, some, ok, Dict, lookup, insert, lookup-insert,
  if◌then◌else◌, ◌==◌, eq_iff, arith, Bool-cases, inl, inr,
}
use cloudquery_fork4devin.TableNameChanger.{
  TableNameChanger, change_of, learn, learn_table_name_change, update_table_name, is_learned,
}

change_of-insert :
    (c : TableNameChanger) (destination other old table new : String) (changes : Dict String)
    → lookup destination c ≡ some changes
    → change_of (insert destination (insert old new changes) c) other table
      ≡ (if destination == other && old == table then some new else change_of c other table)
change_of-insert c destination other old table new changes e =
    rw (lookup-insert destination other (insert old new changes) c)
      (elim (Bool-cases (destination == other)) [
        | inr differs ↦ rw differs refl
        | inl same ↦
            let known : lookup other c ≡ some changes =
              ap (λ d. lookup d c) (sym ((eq_iff destination other).0 same)) ∙ e in
            rw (same, known) (lookup-insert old table new changes)
      ])

-- For a destination that is known and a schema with a table name, learning succeeds: where no name
-- that is not empty was learned before, the old name is updated to this one from then on, and else as
-- before. The names of other tables, and those of other destinations, are updated as before.
pub learn_table_name_change_lem :
    (c : TableNameChanger) (destination old new : String) (changes : Dict String)
    → lookup destination c ≡ some changes
    → (c' : TableNameChanger) × (learn_table_name_change c destination old (some (some new))
        ≡ ok c')
      × ((other table : String)
          → update_table_name c' other table ≡ (
              if destination == other
                && old == table
                && not (is_learned (change_of c destination old))
              then new
              else update_table_name c other table))
unfolding learn_table_name_change update_table_name
learn_table_name_change_lem c destination old new changes known =
    elim (Bool-cases (is_learned (change_of c destination old))) [
      | inl before ↦
          (c, rw (before, learn_table_name_change) refl, λ other table. ground (arith, before))
      | inr fresh ↦ (
        insert destination (insert old new changes) c,
        rw (fresh, learn_table_name_change) (rw (known, learn) refl),
        λ other table.
            ground (arith, fresh, change_of-insert c destination other old table new changes known),
      )
    ]
