-- ===== src/Specs/ReaderReferences.antt =====
-- What a configuration that `NewSpecReader` accepts promises to its users: references resolve, and a
-- destination is not shared by two versions of one source.
use cloudquery_fork4devin.Base.{
  ◌≡◌, ◌≢◌, refl, ◌∙◌, sym, subst, true, false, String, List, [], ◌∷◌, ◌++◌, Option, none, some,
  Result, ok, err, >>=-eq-ok, unless-eq-ok, Dict, lookup, if◌then◌else◌, arith, eq_refl, eq_iff,
  Option-cases, inl, inr, All, All-Member, Member, here, there, append, append_cancel_left,
  contains, is_empty, append-nil,
}
use cloudquery_fork4devin.Specs.Source.{Source}
use cloudquery_fork4devin.Specs.Destination.{Destination}
use cloudquery_fork4devin.Specs.WriteMode.{overwrite_delete_stale}
use cloudquery_fork4devin.Specs.Named.{find_named-name, find_named-Member}
use cloudquery_fork4devin.Specs.Reader.{
  SpecReader, ReaderError, no_source, no_destination, DestinationIssue, destination_names,
  get_destination_names_for_source, empty_reader,
}
use cloudquery_fork4devin.Specs.Load.{Host, initialize}
use cloudquery_fork4devin.Specs.ReaderValidate.{
  destination_key, path_version, check_sources, sync_group_issues, transformer_issues,
  destination_issues, join_issues, validate, new_spec_reader,
}
use cloudquery_fork4devin.Specs.ReaderInvariant.{
  IsConsistent, initialize-IsConsistent, destination_name, source_name,
}
use cloudquery_fork4devin.Specs.ReaderVersions.{Known, check_sources-AreChecked}

-- Every destination that a source names is there.
abbrev pub Resolves : SpecReader → Source → Type 0
Resolves r s = All (λ d. lookup d r.destinations_map ≢ none) s.destinations

-- Two sources of one path that share a destination have one version.
abbrev pub Agree : Source → Source → Type 0
Agree s t =
    (d : String)
    → Member d s.destinations
    → Member d t.destinations
    → s.path ≡ t.path
    → s.version ≡ t.version

-- The destination's transformers are there, and no sync group is set with deletion of stale rows.
pub record IsUsable (r : SpecReader) (d : Destination) : Type 0 where
  pub no_stale_group : d.sync_group_id ≢ "" → d.write_mode ≢ overwrite_delete_stale
  pub transformers_found : All (λ t. lookup t r.transformers_map ≢ none) d.transformers

pub record IsAccepted (r : SpecReader) : Type 0 where
  pub some_source : r.sources ≢ []
  pub some_destination : r.destinations ≢ []
  pub resolves : All (Resolves r) r.sources
  pub agree : (s t : Source) → Member s r.sources → Member t r.sources → Agree s t
  pub usable : All (IsUsable r) r.destinations

same_version :
    (seen : Dict String) (d : String) (s t : Source)
    → s.path ≡ t.path
    → Known seen d s
    → Known seen d t
    → s.version ≡ t.version
same_version seen d s t path ks kt =
    let keys : lookup (destination_key d s) seen ≡ lookup (destination_key d t) seen = rw path in
    let whole : path_version s ≡ path_version t = cc in
    let tail : append t.path (append "@" (append s.version ""))
        ≡ append t.path (append "@" (append t.version "")) =
      rw path at whole in
    sym (append-nil s.version)
    ∙ append_cancel_left "@" (append_cancel_left t.path tail)
    ∙ append-nil t.version

Known-Agree :
    (seen : Dict String) (ss : List Source) (s t : Source)
    → All (λ u. All (λ d. Known seen d u) u.destinations) ss
    → Member s ss
    → Member t ss
    → Agree s t
Known-Agree seen ss s t known ms mt d ds dt path =
    let ks =
      All-Member (λ d. Known seen d s)
        (All-Member (λ u. All (λ d. Known seen d u) u.destinations) known ms) ds in
    let kt =
      All-Member (λ d. Known seen d t)
        (All-Member (λ u. All (λ d. Known seen d u) u.destinations) known mt) dt in
    same_version seen d s t path ks kt

append-eq-nil : {A : Type 0} (xs ys : List A) → xs ++ ys ≡ [] → (xs ≡ []) × (ys ≡ [])
append-eq-nil [] ys h = (refl, h)
append-eq-nil (x ∷ xs) ys h = cc

transformer_issues-nil :
    (r : SpecReader) (d : Destination) (ts : List String)
    → transformer_issues r d ts ≡ []
    → All (λ t. lookup t r.transformers_map ≢ none) ts
unfolding transformer_issues
transformer_issues-nil r d [] h = tt
transformer_issues-nil r d (t ∷ ts) h =
    let (h₁, h₂) = append-eq-nil _ (transformer_issues r d ts) h in
    (λ e. cc (rw e at h₁), transformer_issues-nil r d ts h₂)

sync_group_issues-nil :
    (d : Destination)
    → sync_group_issues d ≡ []
    → d.sync_group_id ≢ ""
    → d.write_mode ≢ overwrite_delete_stale
unfolding sync_group_issues
sync_group_issues-nil d h named stale = ground (arith, eq_iff d.sync_group_id "")

destination_issues-nil :
    (r : SpecReader) (ds : List Destination) → destination_issues r ds ≡ [] → All (IsUsable r) ds
unfolding destination_issues
destination_issues-nil r [] h = tt
destination_issues-nil r (d ∷ ds) h =
    let (h₁, h₂) = append-eq-nil (sync_group_issues d) _ h in
    let (h₂, h₃) = append-eq-nil (transformer_issues r d d.transformers) _ h₂ in
    (
      record {
        no_stale_group = sync_group_issues-nil d h₁;
        transformers_found = transformer_issues-nil r d d.transformers h₂;
      },
      destination_issues-nil r ds h₃,
    )

lists_present :
    (ss : List Source) (ds : List Destination) (rest : Option ReaderError)
    → (if is_empty ss then some no_source else if is_empty ds then some no_destination else rest)
      ≡ none
    → (ss ≢ []) × (ds ≢ []) × (rest ≡ none)
lists_present [] ds rest h = cc
lists_present (s ∷ ss) [] rest h = cc
lists_present (s ∷ ss) (d ∷ ds) rest h = (λ e. cc, λ e. cc, h)

checks_passed :
    (c : Result ReaderError (Dict String)) (issues : List DestinationIssue)
    → elim c [ err e ↦ some e | ok _ ↦ join_issues issues ] ≡ none
    → (seen : Dict String) × (c ≡ ok seen) × (issues ≡ [])
checks_passed (err e) issues h = cc
checks_passed (ok seen) [] h = (seen, refl, refl)
checks_passed (ok seen) (i ∷ is) h = cc

-- A reader whose checks pass is accepted in the sense above.
pub validate-IsAccepted : (r : SpecReader) → validate r ≡ none → IsAccepted r
unfolding validate
validate-IsAccepted r h =
    let (ss, ds, h') = lists_present r.sources r.destinations _ h in
    let (seen, checked, issues) = checks_passed (check_sources r r.sources []) _ h' in
    let c = check_sources-AreChecked r r.sources [] checked in
    record {
      some_source = ss;
      some_destination = ds;
      resolves = c.resolved;
      agree = λ s t. Known-Agree seen r.sources s t c.known;
      usable = destination_issues-nil r r.destinations issues;
    }

-- A configuration that `NewSpecReader` accepts has a source and a destination; every destination
-- that a source names and every transformer that a destination names is there; two sources with
-- the same path that share a destination have the same version; and no destination that deletes
-- stale rows has a sync group.
pub new_spec_reader-IsAccepted :
    (host : Host) (paths : List String) {r : SpecReader}
    → new_spec_reader host paths ≡ ok r
    → IsAccepted r
unfolding new_spec_reader
new_spec_reader-IsAccepted host paths {r} h =
    let (r₁, _, checked) = >>=-eq-ok (initialize host paths (empty_reader false)) _ h in
    let (passed, e) = unless-eq-ok (validate r₁) _ r₁ checked in
    subst IsAccepted e (validate-IsAccepted r₁ passed)

-- A configuration that `NewSpecReader` accepts is consistent: see `IsConsistent`.
pub new_spec_reader-IsConsistent :
    (host : Host) (paths : List String) {r : SpecReader}
    → new_spec_reader host paths ≡ ok r
    → IsConsistent r
unfolding new_spec_reader
new_spec_reader-IsConsistent host paths {r} h =
    let (r₁, loaded, checked) = >>=-eq-ok (initialize host paths (empty_reader false)) _ h in
    let (passed, e) = unless-eq-ok (validate r₁) _ r₁ checked in
    subst IsConsistent e (initialize-IsConsistent host false paths loaded)

contains-Member : (xs : List String) {x : String} → Member x xs → contains xs x ≡ true
contains-Member [] m = elim m [ ]
contains-Member (x ∷ xs) here = rw (eq_refl x)
contains-Member (y ∷ xs) {x} (there m) = ground (arith, contains-Member xs m)

destination_names_all :
    (r : SpecReader) (all names : List String)
    → IsConsistent r
    → All (λ d. lookup d r.destinations_map ≢ none) names
    → ((name : String) → Member name names → contains all name ≡ true)
    → destination_names r all names ≡ some names
unfolding destination_names
destination_names_all r all [] c found inside = refl
destination_names_all r all (name ∷ names) c found inside =
    elim (Option-cases (lookup name r.destinations_map)) [
      | inl absent ↦ absurd (found.0 absent)
      | inr (d, present) ↦
          let named : d.name ≡ name =
            find_named-name destination_name name r.destinations
              (sym (c.destinations_indexed name) ∙ present) in
          let rest = destination_names_all r all names c found.1 (λ n m. inside n (there m)) in
          rw (inside name here, present, rest, destination_names) (rw named)
    ]

-- In a reader that `NewSpecReader` returns, the names of the destinations of a source that it holds
-- are found without a nil pointer, and are those that the source's spec names, in that order.
pub get_destination_names_for_source-total :
    (host : Host) (paths : List String) (r : SpecReader) (s : Source)
    → new_spec_reader host paths ≡ ok r
    → Member s r.sources
    → get_destination_names_for_source r s.name ≡ some s.destinations
unfolding get_destination_names_for_source
get_destination_names_for_source-total host paths r s h m =
    let c = new_spec_reader-IsConsistent host paths h in
    let a = new_spec_reader-IsAccepted host paths h in
    let held : lookup s.name r.sources_map ≡ some s =
      c.sources_indexed s.name ∙ find_named-Member source_name c.sources_distinct m in
    rw (held, get_destination_names_for_source)
      (destination_names_all r s.destinations s.destinations c
        (All-Member (Resolves r) a.resolves m) (λ n. contains-Member s.destinations))
