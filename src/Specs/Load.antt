-- ===== src/Specs/Load.antt =====
-- cli/internal/specs/v0/spec_reader.go: the files and directories of a configuration.
use cloudquery_fork4devin.Base.{
  Bool, ◌&&◌, ◌||◌, not, String, ℕ, ◌+◌, List, [], ◌∷◌, Option, none, some, Result, ok, err, ◌>>=◌,
  if◌then◌else◌, has_prefix, has_suffix, replace_all, split_text,
}
use cloudquery_fork4devin.Specs.Expand.{
  Formats, ExpandError, expand_file_config, expand_env, expand_time,
}
use cloudquery_fork4devin.Specs.Reader.{
  SpecReader, ReaderError, cannot_open, cannot_read, cannot_read_dir, cannot_strip, cannot_expand,
  cannot_unmarshal, Spec, add_spec,
}

-- What surrounds the reader: the operating system, the YAML and JSON libraries, and the clock.
pub record Host : Type 0 where
  -- `os.Open` and `Stat`: `none` is an error, and the flag is `IsDir`.
  pub stat : String → Option Bool
  -- `os.ReadFile`
  pub read_file : String → Option String
  -- `os.ReadDir`: the names, each with `IsDir`.
  pub read_dir : String → Option (List (String × Bool))
  -- `filepath.Join`
  pub join : String → String → String
  -- `os.LookupEnv`
  pub lookup_env : String → Option String
  -- A relative time, at the time of the call, in a format.
  pub format_time : String → String → Option String
  pub formats : Formats
  -- `stripYamlComments`, which goes through JSON and back to YAML.
  pub strip_yaml_comments : String → Option String
  -- `SpecUnmarshalYamlStrict`
  pub unmarshal : String → Option Spec

-- A step that gives the text beside an error.
abbrev pub expanded : String → ℕ → String × Option ExpandError → Result ReaderError String
expanded path i (doc, none) = ok doc
expanded path i (doc, some e) = err (cannot_expand path i e)

abbrev pub or_fail : {A : Type 0} → Option A → ReaderError → Result ReaderError A
or_fail none e = err e
or_fail (some a) e = ok a

-- The documents of a file, after Windows line ends are replaced.
abbrev pub sections_of : String → List String
sections_of contents = split_text (replace_all contents "\r\n" "\n") "\n---\n"

module _ (host : Host) where
  -- One section becomes a spec, which is added.
  unfoldable pub section_spec : String → ℕ → String → Result ReaderError Spec
  section_spec path i section = do
    doc ← or_fail (host.strip_yaml_comments section) (cannot_strip path)
    doc ← expanded path i (expand_file_config host.formats host.read_file doc)
    doc ← expanded path i (expand_time host.format_time doc)
    doc ← expanded path i (expand_env host.lookup_env doc)
    or_fail (host.unmarshal doc) (cannot_unmarshal path)

  unfoldable pub load_section : String → ℕ → String → SpecReader → Result ReaderError SpecReader
  unfolding section_spec
  load_section path i section r = section_spec path i section >>= add_spec r

  -- The loop of `loadSpecsFromFile`.
  unfoldable pub load_sections :
      String → ℕ → List String → SpecReader → Result ReaderError SpecReader
  load_sections path i [] r = ok r
  load_sections path i (section ∷ rest) r = do
    r ← load_section path i section r
    load_sections path (i + 1) rest r

  -- `loadSpecsFromFile`
  unfoldable pub load_specs_from_file : String → SpecReader → Result ReaderError SpecReader
  load_specs_from_file path r = do
    contents ← or_fail (host.read_file path) (cannot_read path)
    load_sections path 1 (sections_of contents) r

  -- The test on an entry of a directory.
  unfoldable pub is_spec_file : String → Bool → Bool
  is_spec_file name is_dir =
      not is_dir && not (has_prefix name ".") && (has_suffix name ".yml" || has_suffix name ".yaml")

  unfoldable pub load_entries :
      String → List (String × Bool) → SpecReader → Result ReaderError SpecReader
  load_entries path [] r = ok r
  load_entries path ((name, is_dir) ∷ rest) r = do
    r ← (if is_spec_file name is_dir then load_specs_from_file (host.join path name) r else ok r)
    load_entries path rest r

  -- `loadSpecsFromDir`
  unfoldable pub load_specs_from_dir : String → SpecReader → Result ReaderError SpecReader
  load_specs_from_dir path r = do
    files ← or_fail (host.read_dir path) (cannot_read_dir path)
    load_entries path files r

  -- One path of `initialize`, once it is known whether it is a directory.
  unfoldable pub load_path : String → Bool → SpecReader → Result ReaderError SpecReader
  load_path path is_dir r =
      if is_dir then load_specs_from_dir path r else load_specs_from_file path r

  -- `initialize`
  unfoldable pub initialize : List String → SpecReader → Result ReaderError SpecReader
  initialize [] r = ok r
  initialize (path ∷ paths) r = do
    is_dir ← or_fail (host.stat path) (cannot_open path)
    r ← load_path path is_dir r
    initialize paths r
