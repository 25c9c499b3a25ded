-- ===== src/Specs/ReaderVersions.antt =====
-- The version map of `validate`: what an accepted list of sources says of the destinations in use.
use text.Mathlib.TextEquality.{eq_iff}
use cloudquery_fork4devin.Base.{
  ◌≡◌, ◌≢◌, false, String, List, [], ◌∷◌, none, some, ok, >>=-eq-ok, Dict, lookup, insert,
  lookup-insert, arith, ◌==◌, eq_refl, Option-cases, inl, inr, All, append, ◌⊎◌, subst, All-map,
}
use cloudquery_fork4devin.Specs.Source.{Source}
use cloudquery_fork4devin.Specs.Reader.{SpecReader}
use cloudquery_fork4devin.Specs.ReaderValidate.{
  destination_key, path_version, or_empty, note_version, check_source, check_sources,
}

-- The map holds the version of this source for this destination.
abbrev pub Known : Dict String → String → Source → Type 0
Known seen d s = lookup (destination_key d s) seen ≡ some (path_version s)

append-at-ne-nil : (s t : String) → append s (append "@" t) ≢ ""
append-at-ne-nil String.[] t e = cc
append-at-ne-nil (String.◌∷◌ c s) t e = cc

path_version-ne-nil : (s : Source) → (path_version s == "") ≡ false
path_version-ne-nil s =
    ground (arith, eq_iff (path_version s) "", append-at-ne-nil s.path (append s.version ""))

-- Either the key was not used, and is now, or it has this very value, and nothing changes.
note_version_cases :
    (key value : String) (seen : Dict String) {seen' : Dict String}
    → note_version key value seen ≡ some seen'
    → ((or_empty (lookup key seen) ≡ "") × (insert key value seen ≡ seen'))
      ⊎ ((lookup key seen ≡ some value) × (seen ≡ seen'))
unfolding note_version
note_version_cases key value seen h =
    ground
      (arith, eq_iff (or_empty (lookup key seen)) "", eq_iff (or_empty (lookup key seen)) value)

-- A key that is known is not written again.
note_version-Known :
    (key value k : String) (v : String) (seen : Dict String) {seen' : Dict String}
    → (v == "") ≡ false
    → lookup k seen ≡ some v
    → note_version key value seen ≡ some seen'
    → lookup k seen' ≡ some v
note_version-Known key value k v seen ne known h = elim (note_version_cases key value seen h) [
  | inl (absent, e) ↦
      rw (← e) (ground (arith, lookup-insert key k value seen, eq_iff key k, eq_iff v ""))
  | inr (present, e) ↦ rw (← e) known
]

-- After a use is noted, its version is known.
note_version-new :
    (key value : String) (seen : Dict String) {seen' : Dict String}
    → note_version key value seen ≡ some seen'
    → lookup key seen' ≡ some value
note_version-new key value seen h = elim (note_version_cases key value seen h) [
  | inl (absent, e) ↦ rw (← e, lookup-insert key key value seen, eq_refl key)
  | inr (present, e) ↦ rw (← e) present
]

-- What `check_source` tells of one accepted source, from a map to a map.
pub record IsChecked (r : SpecReader) (s : Source) (ds : List String) (seen seen' : Dict String)
    : Type 0 where
  pub kept : (d : String) (t : Source) → Known seen d t → Known seen' d t
  pub known : All (λ d. Known seen' d s) ds
  pub resolved : All (λ d. (lookup d r.destinations_map ≡ none) → ⊥) ds

IsChecked-cons :
    (r : SpecReader) (s : Source) (d : String) (ds : List String) (seen seen₁ seen₂ : Dict String)
    → lookup d r.destinations_map ≢ none
    → note_version (destination_key d s) (path_version s) seen ≡ some seen₁
    → IsChecked r s ds seen₁ seen₂
    → IsChecked r s (d ∷ ds) seen seen₂
IsChecked-cons r s d ds seen seen₁ seen₂ found noted c = record {
  kept = λ d' t k. c.kept d' t (
      note_version-Known _ _ (destination_key d' t) (path_version t) seen (path_version-ne-nil t) k
        noted);
  known =
      (c.kept d s (note_version-new (destination_key d s) (path_version s) seen noted), c.known);
  resolved = (found, c.resolved);
}

check_source-IsChecked :
    (r : SpecReader) (s : Source) (ds : List String) (seen : Dict String) {seen' : Dict String}
    → check_source r s ds seen ≡ ok seen'
    → IsChecked r s ds seen seen'
unfolding check_source
check_source-IsChecked r s [] seen h = record {
  kept = λ d t k. subst (λ m. Known m d t) (cc) k;
  known = tt;
  resolved = tt;
}
check_source-IsChecked r s (d ∷ ds) seen {seen'} h =
    elim (Option-cases (lookup d r.destinations_map)) [
      | inl e ↦ cc (rw (e, check_source) at h)
      | inr (found, e) ↦
          elim (Option-cases (note_version (destination_key d s) (path_version s) seen)) [
            | inl conflict ↦ cc (rw (e, conflict, check_source) at h)
            | inr (seen₁, noted) ↦
                IsChecked-cons r s d ds seen seen₁ seen' (λ absent. cc) noted
                  (check_source-IsChecked r s ds seen₁ (rw (e, noted, check_source) at h))
          ]
    ]

-- What `check_sources` tells of the accepted sources.
pub record AreChecked (r : SpecReader) (ss : List Source) (seen seen' : Dict String) : Type 0 where
  pub kept : (d : String) (t : Source) → Known seen d t → Known seen' d t
  pub known : All (λ s. All (λ d. Known seen' d s) s.destinations) ss
  pub resolved : All (λ s. All (λ d. (lookup d r.destinations_map ≡ none) → ⊥) s.destinations) ss

pub check_sources-AreChecked :
    (r : SpecReader) (ss : List Source) (seen : Dict String) {seen' : Dict String}
    → check_sources r ss seen ≡ ok seen'
    → AreChecked r ss seen seen'
unfolding check_sources
check_sources-AreChecked r [] seen h = record {
  kept = λ d t k. subst (λ m. Known m d t) (cc) k;
  known = tt;
  resolved = tt;
}
check_sources-AreChecked r (s ∷ rest) seen h =
    let (seen₁, h₁, h₂) =
      >>=-eq-ok (check_source r s s.destinations seen) (check_sources r rest) h in
    let one = check_source-IsChecked r s s.destinations seen h₁ in
    let more = check_sources-AreChecked r rest seen₁ h₂ in
    record {
      kept = λ d t k. more.kept d t (one.kept d t k);
      known = (
        All-map (λ d. Known seen₁ d s) _ (λ d k. more.kept d s k) s.destinations one.known,
        more.known,
      );
      resolved = (one.resolved, more.resolved);
    }
