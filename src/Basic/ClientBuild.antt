-- ===== src/Basic/ClientBuild.antt =====
-- `New` of plugins/transformer/basic/client/client.go.
use cloudquery_fork4devin.Base.{
  ◌≡◌, refl, ap, false, List, [], ◌∷◌, map, some, ok, All, is_empty, Bool-cases, inl, inr,
}
use cloudquery_fork4devin.Basic.Spec.{TransformationSpec, default_tables, set_defaults}
use cloudquery_fork4devin.Basic.SpecRules.{FollowsRule, validate-FollowsRule}
use cloudquery_fork4devin.Basic.Builds.{FollowsRule-builds}
use cloudquery_fork4devin.Basic.Matcher.{new_matcher}
use cloudquery_fork4devin.Basic.Client.{Transformer, build_all, new_client}

build_all-ok :
    (sps : List TransformationSpec)
    → All FollowsRule sps
    → (ts : List Transformer) × (build_all sps ≡ ok ts)
      × (map (λ t. t.matcher.patterns) ts ≡ map (λ sp. sp.tables) sps)
unfolding build_all new_matcher
build_all-ok [] h = ([], refl, refl)
build_all-ok (sp ∷ sps) h =
    let (tr, built) = FollowsRule-builds sp h.0 in
    let (ts, rest, patterns) = build_all-ok sps h.1 in
    (
      record { matcher = new_matcher sp.tables; transformation = tr } ∷ ts,
      rw (built, build_all, rest) refl,
      ap (λ ps. sp.tables ∷ ps) patterns,
    )

set_defaults-FollowsRule :
    (sps : List TransformationSpec) → All FollowsRule sps → All FollowsRule (set_defaults sps)
unfolding set_defaults default_tables
set_defaults-FollowsRule [] h = tt
set_defaults-FollowsRule (sp ∷ sps) h = elim (Bool-cases (is_empty sp.tables)) [
  | inl e ↦ rw (e, default_tables) (h.0, set_defaults-FollowsRule sps h.1)
  | inr e ↦ rw (e, default_tables) (h.0, set_defaults-FollowsRule sps h.1)
]

-- Where every transformation follows the rule of its kind, `New` succeeds, without a nil pointer, and
-- gives a transformer for each transformation, in order, with its table patterns after the defaults.
pub new_client_lem :
    (sps : List TransformationSpec)
    → All FollowsRule sps
    → (ts : List Transformer) × (new_client false (some sps) ≡ ok ts)
      × (map (λ t. t.matcher.patterns) ts ≡ map (λ sp. sp.tables) (set_defaults sps))
unfolding new_client
new_client_lem sps h =
    let follows = set_defaults-FollowsRule sps h in
    let valid = (validate-FollowsRule (set_defaults sps)).1 follows in
    let (ts, built, patterns) = build_all-ok (set_defaults sps) follows in
    (ts, rw (valid, new_client) built, patterns)
