-- ===== src/Basic/Matcher.antt =====
-- plugins/transformer/basic/client/tablematcher/table_matcher.go
use cloudquery_fork4devin.Base.{
  Bool, true, false, String, List, [], ◌∷◌, none, some, Dict, lookup, insert, if◌then◌else◌,
}

pub record TableMatcher : Type 0 where
  pub patterns : List String
  pub matcher_cache : Dict Bool

-- `New`
unfoldable pub new_matcher : List String → TableMatcher
new_matcher patterns = record { patterns = patterns; matcher_cache = [] }

module _ (glob : String → String → Bool) where
  -- The loop over the patterns.
  unfoldable pub match_any : List String → String → Bool
  match_any [] table = false
  match_any (p ∷ ps) table = if glob p table then true else match_any ps table

  -- `isTableMatch`
  unfoldable pub is_table_match : TableMatcher → String → Bool × TableMatcher
  unfolding match_any
  is_table_match t table = elim (lookup table t.matcher_cache) [
    | some result ↦ (result, t)
    | none ↦
        let result = match_any t.patterns table in
        (result, record t { matcher_cache = insert table result t.matcher_cache })
  ]

  -- The answers for several tables, one after the other.
  unfoldable pub match_tables : TableMatcher → List String → List Bool
  unfolding is_table_match
  match_tables t [] = []
  match_tables t (table ∷ tables) =
      let (result, t') = is_table_match t table in result ∷ match_tables t' tables
