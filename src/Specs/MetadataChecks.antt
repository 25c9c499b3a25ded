-- ===== src/Specs/MetadataChecks.antt =====
-- What `Metadata.Validate` and `Metadata.SetDefaults` establish.
use cloudquery_fork4devin.Base.{
  refl, sym, subst, ◌≡◌, ◌≢◌, ◌↔◌, true, false≢true, String, none, arith, eq_iff, has_prefix,
}
use cloudquery_fork4devin.Specs.Registry.{unset, cloudquery, need_version}
use cloudquery_fork4devin.Specs.Metadata.{Metadata, validate, set_defaults}

-- The metadata is complete: a name, a path, and a version that starts with v where the registry
-- needs one.
pub record IsComplete (m : Metadata) : Type 0 where
  pub named : m.name ≢ ""
  pub located : m.path ≢ ""
  pub versioned : need_version m.registry ≡ true → has_prefix m.version "v" ≡ true

has_prefix-v-ne : (s : String) → has_prefix s "v" ≡ true → s ≢ ""
has_prefix-v-ne s h e = false≢true (rw e at h)

-- `Validate` gives no error exactly for complete metadata.
pub validate_iff : (m : Metadata) → (validate m ≡ none) ↔ IsComplete m
unfolding validate
validate_iff m = (
  λ h. record {
    named = ground (arith, eq_iff m.name "");
    located = ground (arith, eq_iff m.name "", eq_iff m.path "");
    versioned = ground (arith, eq_iff m.name "", eq_iff m.path "");
  },
  λ c.
      ground
        (arith, eq_iff m.name "", eq_iff m.path "", eq_iff m.version "", has_prefix-v-ne m.version),
)

-- The metadata is complete when its registry is the one of CloudQuery.
pub record IsCompleteForCloud (m : Metadata) : Type 0 where
  pub named : m.name ≢ ""
  pub located : m.path ≢ ""
  pub versioned : has_prefix m.version "v" ≡ true

validate-cloudquery :
    (m : Metadata) → m.registry ≡ cloudquery → (validate m ≡ none) ↔ IsCompleteForCloud m
unfolding need_version
validate-cloudquery m e = (
  λ h.
      let c = (validate_iff m).0 h in
      record { named = c.named; located = c.located; versioned = c.versioned (rw e refl) },
  λ c.
      (validate_iff m).1
        (record { named = c.named; located = c.located; versioned = λ n. c.versioned }),
)

unset_defaults :
    (m : Metadata)
    → m.registry ≡ unset
    → set_defaults m ≡ record m { registry = cloudquery; registry_inferred = true }
unfolding set_defaults
unset_defaults m e = ground arith

-- After `SetDefaults` the registry is set. Where it was set before, nothing changes. Where it was not,
-- it is CloudQuery's, the flag says that it was inferred, and all else is kept; and `Validate` then
-- accepts exactly metadata that has a name, a path and a version that starts with v. A second call
-- changes nothing.
pub set_defaults_lem :
    (m : Metadata)
    → ((set_defaults m).registry ≢ unset)
      × (m.registry ≢ unset → set_defaults m ≡ m)
      × (m.registry ≡ unset
          → (set_defaults m ≡ record m { registry = cloudquery; registry_inferred = true })
            × ((validate (set_defaults m) ≡ none) ↔ IsCompleteForCloud m))
      × (set_defaults (set_defaults m) ≡ set_defaults m)
unfolding set_defaults
set_defaults_lem m = (
  ground arith,
  ground arith,
  λ e. (
    unset_defaults m e,
    let c =
          validate-cloudquery (record m { registry = cloudquery; registry_inferred = true }) refl in
        subst (λ n. (validate n ≡ none) ↔ IsCompleteForCloud m) (sym (unset_defaults m e))
          (
            λ h.
                let d = c.0 h in
                record { named = d.named; located = d.located; versioned = d.versioned },
            λ d. c.1 (record { named = d.named; located = d.located; versioned = d.versioned }),
          ),
  ),
  ground arith,
)
