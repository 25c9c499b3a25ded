-- ===== src/Specs/ReaderInvariant.antt =====
-- The reader's maps and slices agree, names are unique, and every spec that it holds has its defaults
-- and is valid: an invariant of `add_spec` and of the loading of files and directories.
use cloudquery_fork4devin.Base.{
  ◌≡◌, ◌≢◌, refl, ◌∙◌, sym, subst, Bool, true, false, String, ℕ, ◌+◌, List, [], ◌∷◌, Option, none,
  Result, ok, err, ◌>>=◌, >>=-eq-ok, >>=-eq-ok, unless, lookup, if◌then◌else◌, arith, All,
  All-append, is_some,
}
use cloudquery_fork4devin.Specs.Registry.{unset}
use cloudquery_fork4devin.Specs.Metadata
use cloudquery_fork4devin.Specs.Source
use cloudquery_fork4devin.Specs.Source.{Source}
use cloudquery_fork4devin.Specs.Destination
use cloudquery_fork4devin.Specs.Destination.{Destination}
use cloudquery_fork4devin.Specs.Transformer
use cloudquery_fork4devin.Specs.Transformer.{Transformer}
use cloudquery_fork4devin.Specs.Named.{IsDistinct, IsDistinct-append, Indexes, Indexes-insert}
use cloudquery_fork4devin.Specs.Reader.{
  cannot_read, cannot_open, cannot_read_dir, SpecReader, ReaderError, Spec, source_spec,
  destination_spec, transformer_spec, add_source, add_destination, add_transformer, add_spec,
  empty_reader,
}
use cloudquery_fork4devin.Specs.Load.{
  Host, or_fail, section_spec, sections_of, load_path, load_section, load_sections,
  load_specs_from_file, load_entries, load_specs_from_dir, is_spec_file, initialize,
}

abbrev pub source_name : Source → String
source_name s = s.name

abbrev pub destination_name : Destination → String
destination_name d = d.name

abbrev pub transformer_name : Transformer → String
transformer_name t = t.name

-- A spec after `SetDefaults` that `Validate` accepts.
pub record IsReadySource (relaxed : Bool) (s : Source) : Type 0 where
  pub valid : Source.validate relaxed s ≡ none
  pub registered : s.registry ≢ unset
  pub skip_set : is_some s.skip_dependent_tables ≡ true
  pub spec_set : is_some s.spec ≡ true

pub record IsReadyDestination (d : Destination) : Type 0 where
  pub valid : Destination.validate d ≡ none
  pub registered : d.registry ≢ unset
  pub spec_set : is_some d.spec ≡ true

pub record IsReadyTransformer (t : Transformer) : Type 0 where
  pub valid : Transformer.validate t ≡ none
  pub registered : t.registry ≢ unset

pub record IsConsistent (r : SpecReader) : Type 0 where
  pub sources_indexed : Indexes source_name r.sources_map r.sources
  pub sources_distinct : IsDistinct source_name r.sources
  pub sources_ready : All (IsReadySource r.relaxed) r.sources
  pub destinations_indexed : Indexes destination_name r.destinations_map r.destinations
  pub destinations_distinct : IsDistinct destination_name r.destinations
  pub destinations_ready : All IsReadyDestination r.destinations
  pub transformers_indexed : Indexes transformer_name r.transformers_map r.transformers
  pub transformers_distinct : IsDistinct transformer_name r.transformers
  pub transformers_ready : All IsReadyTransformer r.transformers

set_defaults-name : (m : Metadata.Metadata) → (Metadata.set_defaults m).name ≡ m.name
unfolding Metadata.set_defaults
set_defaults-name m = ground arith

set_defaults-registry : (m : Metadata.Metadata) → (Metadata.set_defaults m).registry ≢ unset
unfolding Metadata.set_defaults
set_defaults-registry m = ground arith

-- The test for a duplicate, and the check after the defaults, when both are passed.
accepted :
    {A E : Type 0} (seen : Option A) (error : ReaderError) (check : Option E)
    (wrap : E → ReaderError) (r : SpecReader) {r' : SpecReader}
    → (if is_some seen then err error else unless check wrap r) ≡ ok r'
    → (seen ≡ none) × (check ≡ none) × (r ≡ r')
accepted seen error check wrap r h = ground arith

set_defaults-IsReady :
    (relaxed : Bool) (s : Source)
    → Source.validate relaxed (Source.set_defaults s) ≡ none
    → IsReadySource relaxed (Source.set_defaults s)
unfolding Source.set_defaults
set_defaults-IsReady relaxed s h = record {
  valid = h;
  registered = set_defaults-registry s.metadata;
  skip_set = ground arith;
  spec_set = ground arith;
}

set_defaults-source_name : (s : Source) → (Source.set_defaults s).name ≡ s.name
unfolding Source.set_defaults
set_defaults-source_name s = set_defaults-name s.metadata

add_source-IsConsistent :
    (r : SpecReader) (s : Source) {r' : SpecReader}
    → IsConsistent r
    → add_source r s ≡ ok r'
    → IsConsistent r'
unfolding add_source
add_source-IsConsistent r s {r'} c h =
    let s' = Source.set_defaults s in
    let (fresh, valid, eq) = accepted (lookup s.name r.sources_map) _ _ _ _ h in
    let fresh' : lookup s'.name r.sources_map ≡ none = rw (set_defaults-source_name s) fresh in
    subst IsConsistent eq (record {
      sources_indexed =
          Indexes-insert source_name r.sources_map r.sources s' fresh' c.sources_indexed;
      sources_distinct =
          IsDistinct-append source_name r.sources s' (sym (c.sources_indexed s'.name) ∙ fresh')
            c.sources_distinct;
      sources_ready =
          All-append (IsReadySource r.relaxed) r.sources (s' ∷ []) c.sources_ready
            (set_defaults-IsReady r.relaxed s valid, tt);
      destinations_indexed = c.destinations_indexed;
      destinations_distinct = c.destinations_distinct;
      destinations_ready = c.destinations_ready;
      transformers_indexed = c.transformers_indexed;
      transformers_distinct = c.transformers_distinct;
      transformers_ready = c.transformers_ready;
    })

set_defaults-destination_name : (d : Destination) → (Destination.set_defaults d).name ≡ d.name
unfolding Destination.set_defaults
set_defaults-destination_name d = set_defaults-name d.metadata

set_defaults-IsReadyDestination :
    (d : Destination)
    → Destination.validate (Destination.set_defaults d) ≡ none
    → IsReadyDestination (Destination.set_defaults d)
unfolding Destination.set_defaults
set_defaults-IsReadyDestination d h = record {
  valid = h;
  registered = set_defaults-registry d.metadata;
  spec_set = ground arith;
}

add_destination-IsConsistent :
    (r : SpecReader) (d : Destination) {r' : SpecReader}
    → IsConsistent r
    → add_destination r d ≡ ok r'
    → IsConsistent r'
unfolding add_destination
add_destination-IsConsistent r d {r'} c h =
    let d' = Destination.set_defaults d in
    let (fresh, valid, eq) = accepted (lookup d.name r.destinations_map) _ _ _ _ h in
    let fresh' : lookup d'.name r.destinations_map ≡ none =
      rw (set_defaults-destination_name d) fresh in
    subst IsConsistent eq (record {
      sources_indexed = c.sources_indexed;
      sources_distinct = c.sources_distinct;
      sources_ready = c.sources_ready;
      destinations_indexed =
          Indexes-insert destination_name r.destinations_map r.destinations d' fresh'
            c.destinations_indexed;
      destinations_distinct =
          IsDistinct-append destination_name r.destinations d'
            (sym (c.destinations_indexed d'.name) ∙ fresh') c.destinations_distinct;
      destinations_ready =
          All-append IsReadyDestination r.destinations (d' ∷ []) c.destinations_ready
            (set_defaults-IsReadyDestination d valid, tt);
      transformers_indexed = c.transformers_indexed;
      transformers_distinct = c.transformers_distinct;
      transformers_ready = c.transformers_ready;
    })

set_defaults-transformer_name : (t : Transformer) → (Transformer.set_defaults t).name ≡ t.name
unfolding Transformer.set_defaults
set_defaults-transformer_name t = set_defaults-name t.metadata

set_defaults-IsReadyTransformer :
    (t : Transformer)
    → Transformer.validate (Transformer.set_defaults t) ≡ none
    → IsReadyTransformer (Transformer.set_defaults t)
unfolding Transformer.set_defaults
set_defaults-IsReadyTransformer t h = record {
  valid = h;
  registered = set_defaults-registry t.metadata;
}

add_transformer-IsConsistent :
    (r : SpecReader) (t : Transformer) {r' : SpecReader}
    → IsConsistent r
    → add_transformer r t ≡ ok r'
    → IsConsistent r'
unfolding add_transformer
add_transformer-IsConsistent r t {r'} c h =
    let t' = Transformer.set_defaults t in
    let (fresh, valid, eq) = accepted (lookup t.name r.transformers_map) _ _ _ _ h in
    let fresh' : lookup t'.name r.transformers_map ≡ none =
      rw (set_defaults-transformer_name t) fresh in
    subst IsConsistent eq (record {
      sources_indexed = c.sources_indexed;
      sources_distinct = c.sources_distinct;
      sources_ready = c.sources_ready;
      destinations_indexed = c.destinations_indexed;
      destinations_distinct = c.destinations_distinct;
      destinations_ready = c.destinations_ready;
      transformers_indexed =
          Indexes-insert transformer_name r.transformers_map r.transformers t' fresh'
            c.transformers_indexed;
      transformers_distinct =
          IsDistinct-append transformer_name r.transformers t'
            (sym (c.transformers_indexed t'.name) ∙ fresh') c.transformers_distinct;
      transformers_ready =
          All-append IsReadyTransformer r.transformers (t' ∷ []) c.transformers_ready
            (set_defaults-IsReadyTransformer t valid, tt);
    })

-- Adding a document of any kind to a consistent reader, where it is accepted, gives a consistent
-- reader: no name is taken twice, and what is added has its defaults and is valid.
pub add_spec-IsConsistent :
    (r : SpecReader) (spec : Spec) {r' : SpecReader}
    → IsConsistent r
    → add_spec r spec ≡ ok r'
    → IsConsistent r'
unfolding add_spec
add_spec-IsConsistent r (source_spec s) = add_source-IsConsistent r s
add_spec-IsConsistent r (destination_spec d) = add_destination-IsConsistent r d
add_spec-IsConsistent r (transformer_spec t) = add_transformer-IsConsistent r t

-- An action on a reader keeps `P` where it succeeds.
abbrev Keeps : (SpecReader → Type 0) → (SpecReader → Result ReaderError SpecReader) → Type 0
Keeps P f = (r r' : SpecReader) → P r → f r ≡ ok r' → P r'

-- What every accepted document keeps, the loading of a configuration keeps.
module _ (P : SpecReader → Type 0) where
  Keeps-ok : Keeps P ok
  Keeps-ok r r' p h = subst P (cc) p

  -- A step that does not depend on the reader, and then one that does.
  Keeps-bind :
      {A : Type 0} (m : Result ReaderError A) (f : A → SpecReader → Result ReaderError SpecReader)
      → ((a : A) → Keeps P (f a))
      → Keeps P (λ r. m >>= λ a. f a r)
  Keeps-bind (ok a) f k = k a
  Keeps-bind (err e) f k = λ r r' p h. cc

  Keeps-then :
      (f g : SpecReader → Result ReaderError SpecReader)
      → Keeps P f
      → Keeps P g
      → Keeps P (λ r. f r >>= g)
  Keeps-then f g kf kg r r' p h =
      let (r₁, h₁, h₂) = >>=-eq-ok (f r) g h in kg r₁ r' (kf r r₁ p h₁) h₂

  Keeps-if :
      (b : Bool) (f g : SpecReader → Result ReaderError SpecReader)
      → Keeps P f
      → Keeps P g
      → Keeps P (λ r. if b then f r else g r)
  Keeps-if true f g kf kg = kf
  Keeps-if false f g kf kg = kg

  module _ (step : (spec : Spec) → Keeps P (λ r. add_spec r spec)) (host : Host) where
    load_section-Keeps :
        (path : String) (i : ℕ) (section : String) → Keeps P (load_section host path i section)
    unfolding load_section
    load_section-Keeps path i section =
        Keeps-bind (section_spec host path i section) (λ spec r. add_spec r spec) step

    load_sections-Keeps :
        (path : String) (i : ℕ) (sections : List String)
        → Keeps P (load_sections host path i sections)
    unfolding load_sections
    load_sections-Keeps path i [] = Keeps-ok
    load_sections-Keeps path i (section ∷ rest) =
        Keeps-then (load_section host path i section) (load_sections host path (i + 1) rest)
          (load_section-Keeps path i section) (load_sections-Keeps path (i + 1) rest)

    load_specs_from_file-Keeps : (path : String) → Keeps P (load_specs_from_file host path)
    unfolding load_specs_from_file
    load_specs_from_file-Keeps path =
        Keeps-bind (or_fail (host.read_file path) (cannot_read path))
          (λ contents. load_sections host path 1 (sections_of contents))
          (λ contents. load_sections-Keeps path 1 (sections_of contents))

    load_entries-Keeps :
        (path : String) (entries : List (String × Bool)) → Keeps P (load_entries host path entries)
    unfolding load_entries
    load_entries-Keeps path [] = Keeps-ok
    load_entries-Keeps path ((name, is_dir) ∷ rest) =
        Keeps-then
          (λ r.
            if is_spec_file host name is_dir
            then load_specs_from_file host (host.join path name) r
            else ok r)
          (load_entries host path rest)
          (Keeps-if (is_spec_file host name is_dir) _ ok
            (load_specs_from_file-Keeps (host.join path name)) Keeps-ok)
          (load_entries-Keeps path rest)

    load_specs_from_dir-Keeps : (path : String) → Keeps P (load_specs_from_dir host path)
    unfolding load_specs_from_dir
    load_specs_from_dir-Keeps path =
        Keeps-bind (or_fail (host.read_dir path) (cannot_read_dir path)) (load_entries host path)
          (load_entries-Keeps path)

    load_path-Keeps : (path : String) (is_dir : Bool) → Keeps P (load_path host path is_dir)
    unfolding load_path
    load_path-Keeps path true = load_specs_from_dir-Keeps path
    load_path-Keeps path false = load_specs_from_file-Keeps path

    initialize-Keeps : (paths : List String) → Keeps P (initialize host paths)
    unfolding initialize
    initialize-Keeps [] = Keeps-ok
    initialize-Keeps (path ∷ paths) =
        Keeps-bind (or_fail (host.stat path) (cannot_open path))
          (λ is_dir r. load_path host path is_dir r >>= initialize host paths)
          λ is_dir.
            Keeps-then (load_path host path is_dir) (initialize host paths)
              (load_path-Keeps path is_dir) (initialize-Keeps paths)

pub IsConsistent-empty : (relaxed : Bool) → IsConsistent (empty_reader relaxed)
unfolding lookup
IsConsistent-empty relaxed = record {
  sources_indexed = λ k. refl;
  sources_distinct = tt;
  sources_ready = tt;
  destinations_indexed = λ k. refl;
  destinations_distinct = tt;
  destinations_ready = tt;
  transformers_indexed = λ k. refl;
  transformers_distinct = tt;
  transformers_ready = tt;
}

-- Whatever the files hold, a configuration that loads without an error gives a consistent reader.
pub initialize-IsConsistent :
    (host : Host) (relaxed : Bool) (paths : List String) {r : SpecReader}
    → initialize host paths (empty_reader relaxed) ≡ ok r
    → IsConsistent r
initialize-IsConsistent host relaxed paths {r} h =
    initialize-Keeps IsConsistent (λ spec r r' c h. add_spec-IsConsistent r spec c h) host paths
      (empty_reader relaxed) r (IsConsistent-empty relaxed) h
