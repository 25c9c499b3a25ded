-- ===== src/Basic/MatcherCache.antt =====
-- The cache of a table matcher is not seen in its answers.
use cloudquery_fork4devin.Base.{
  ◌≡◌, refl, ◌∙◌, sym, ap, Bool, false, String, List, [], ◌∷◌, map, Option, none, some, lookup,
  lookup-insert, ◌==◌, eq_iff, Option-cases, Bool-cases, inl, inr,
}
use cloudquery_fork4devin.Basic.Matcher.{
  TableMatcher, new_matcher, match_any, is_table_match, match_tables,
}

module _ (glob : String → String → Bool) where
  abbrev from_some : Option Bool → Bool
  from_some none = false
  from_some (some b) = b

  -- What is cached is what the patterns say.
  abbrev pub IsSound : TableMatcher → Type 0
  IsSound t =
      (table : String) (b : Bool)
      → lookup table t.matcher_cache ≡ some b
      → b ≡ match_any glob t.patterns table

  is_table_match_lem :
      (t : TableMatcher) (table : String)
      → IsSound t
      → ((is_table_match glob t table).0 ≡ match_any glob t.patterns table)
        × ((is_table_match glob t table).1.patterns ≡ t.patterns)
        × IsSound (is_table_match glob t table).1
  unfolding is_table_match
  is_table_match_lem t table sound = elim (Option-cases (lookup table t.matcher_cache)) [
    | inr (b, cached) ↦ rw (cached, is_table_match) (sound table b cached, refl, sound)
    | inl new ↦
        rw (new, is_table_match)
          (
            refl,
            refl,
            λ other b e.
                let e' = rw (lookup-insert table other _ t.matcher_cache) at e in
                elim (Bool-cases (table == other)) [
                  | inl same ↦
                      sym (ap (λ o. from_some o) (rw same at e'))
                      ∙ ap (match_any glob t.patterns) ((eq_iff table other).0 same)
                  | inr differs ↦ sound other b (rw differs at e')
                ],
          )
  ]

  match_tables-map :
      (t : TableMatcher) (tables : List String)
      → IsSound t
      → match_tables glob t tables ≡ map (match_any glob t.patterns) tables
  unfolding match_tables
  match_tables-map t [] sound = refl
  match_tables-map t (table ∷ tables) sound =
      let (first, kept, next) = is_table_match_lem t table sound in
      let rest = match_tables-map (is_table_match glob t table).1 tables next in
      rw (first) (ap (λ bs. match_any glob t.patterns table ∷ bs) (rest ∙ rw kept refl))

  -- Whatever tables a new matcher is asked for, in any order and with repetitions, each answer is
  -- whether one of the patterns matches the table.
  pub match_tables_lem :
      (patterns tables : List String)
      → match_tables glob (new_matcher patterns) tables ≡ map (match_any glob patterns) tables
  unfolding new_matcher lookup
  match_tables_lem patterns tables =
      match_tables-map (new_matcher patterns) tables (λ table b e. cc)
