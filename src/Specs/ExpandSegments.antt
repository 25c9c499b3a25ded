-- ===== src/Specs/ExpandSegments.antt =====
-- The scan of spec_reader.go against a description of the text as literal parts and references.
use cloudquery_fork4devin.Base.{
  ◌≡◌, ◌≢◌, refl, ◌∙◌, sym, ap, ◌+◌, true, false, String, Char, code, List, [], ◌∷◌, Option, none,
  some, Result, ok, err, append, append_assoc, size, size-append, strip_prefix-append, lacks,
  if◌then◌else◌, eq_iff, arith, All, char_eq,
}
use cloudquery_fork4devin.Specs.Expand.{
  until_brace, not_empty, content_at, put_char, put_value, expand_from, expand_env, ExpandError,
  unset_variable, unreadable_file, Formats, should_escape_file_content, expand_file_config,
}

pub data Segment : Type 0 where
  literal : String → Segment
  ref : String → Segment

-- A literal part has no `$`; a reference has a name, with no `}` in it.
abbrev pub IsPrintable : Segment → Type 0
IsPrintable (literal s) = lacks b'$' s ≡ true
IsPrintable (ref name) = (name ≢ "") × (lacks b'}' name ≡ true)

-- The configuration text: a reference is its name between `opening` and `}`.
abbrev pub print : String → List Segment → String
print opening [] = ""
print opening (literal s ∷ rest) = append s (print opening rest)
print opening (ref name ∷ rest) = append opening (append name (append "}" (print opening rest)))

module _ {E : Type 0} where
  abbrev pub put_text : String → String × Option E → String × Option E
  put_text s (t, e) = (append s t, e)

  -- The values in place of the references, and the error of the last reference that has none.
  abbrev pub render : (String → Result E String) → List Segment → String × Option E
  render value [] = ("", none)
  render value (literal s ∷ rest) = put_text s (render value rest)
  render value (ref name ∷ rest) = put_value (value name) (render value rest)

until_brace-append :
    (name t : String)
    → lacks b'}' name ≡ true
    → until_brace (append name (append "}" t)) ≡ some name
until_brace-append String.[] t h = refl
until_brace-append (String.◌∷◌ c s) t h = ground (arith, until_brace-append s t)

not_empty-some : (name : String) → name ≢ "" → not_empty name ≡ some name
not_empty-some name h = ground (arith, eq_iff name "")

content_at-ref :
    (opening name t : String)
    → IsPrintable (ref name)
    → content_at opening (append opening (append name (append "}" t))) ≡ some name
unfolding content_at
content_at-ref opening name t h =
    rw (strip_prefix-append opening _, until_brace-append name t h.1, content_at)
      (not_empty-some name h.0)

-- The text to open a reference begins with `$`.
content_at-other :
    (p s : String) (d c : Char)
    → char_eq c d ≡ false
    → content_at (String.◌∷◌ d p) (String.◌∷◌ c s) ≡ none
unfolding content_at
content_at-other p s d c h = rw (h, content_at)

passed_size :
    (d : Char) (p name : String)
    → size (String.◌∷◌ d p) + size name ≡ size (append p (append name "}"))
passed_size d p name = omega (arith, size-append p (append name "}"), size-append name "}")

passed_text :
    (p name t : String)
    → append p (append name (append "}" t)) ≡ append (append p (append name "}")) t
passed_text p name t =
    sym (append_assoc p (append name "}") t ∙ ap (append p) (append_assoc name "}" t))

module _ {E : Type 0} (value : String → Result E String) where
  expand_from-skip :
      (opening a s : String)
      → expand_from opening value (size a) (append a s) ≡ expand_from opening value 0 s
  unfolding expand_from
  expand_from-skip opening String.[] s = refl
  expand_from-skip opening (String.◌∷◌ c a) s = expand_from-skip opening a s

  module _ (d : Char) (p : String) (dollar : code d ≡ b'$') where
    expand_from-literal :
        (a s : String)
        → lacks b'$' a ≡ true
        → expand_from (String.◌∷◌ d p) value 0 (append a s)
          ≡ put_text a (expand_from (String.◌∷◌ d p) value 0 s)
    unfolding expand_from
    expand_from-literal String.[] s h = refl
    expand_from-literal (String.◌∷◌ c a) s h =
        rw (content_at-other p (append a s) d c (ground arith), expand_from)
          (ap (put_char c) (expand_from-literal a s (ground arith)))

    passed_over :
        (name t : String)
        → expand_from
            (String.◌∷◌ d p)
            value
            (size (String.◌∷◌ d p) + size name)
            (append p (append name (append "}" t)))
          ≡ expand_from (String.◌∷◌ d p) value 0 t
    passed_over name t =
        rw (passed_size d p name, passed_text p name t)
          (expand_from-skip (String.◌∷◌ d p) (append p (append name "}")) t)

    expand_from-ref :
        (name t : String)
        → IsPrintable (ref name)
        → expand_from
            (String.◌∷◌ d p)
            value
            0
            (append (String.◌∷◌ d p) (append name (append "}" t)))
          ≡ put_value (value name) (expand_from (String.◌∷◌ d p) value 0 t)
    unfolding expand_from
    expand_from-ref name t h =
        rw (content_at-ref (String.◌∷◌ d p) name t h, expand_from)
          (ap (put_value (value name)) (passed_over name t))

    -- The whole text of printable segments is expanded segment by segment.
    pub expand_from-print :
        (segments : List Segment)
        → All IsPrintable segments
        → expand_from (String.◌∷◌ d p) value 0 (print (String.◌∷◌ d p) segments)
          ≡ render value segments
    unfolding expand_from
    expand_from-print [] h = refl
    expand_from-print (literal s ∷ rest) h =
        expand_from-literal s (print (String.◌∷◌ d p) rest) h.0
        ∙ ap (put_text s) (expand_from-print rest h.1)
    expand_from-print (ref name ∷ rest) h =
        expand_from-ref name (print (String.◌∷◌ d p) rest) h.0
        ∙ ap (put_value (value name)) (expand_from-print rest h.1)

-- The value of an environment variable, or the error of its absence.
abbrev pub env_value : (String → Option String) → String → Result ExpandError String
env_value lookup_env name = elim (lookup_env name) [
  | none ↦ err (unset_variable name)
  | some content ↦ ok content
]

-- A configuration that is made of parts without `$` and of references `${name}`, where no name is
-- empty or has a `}`, expands to its parts with the variables' values in place of the references;
-- the error is that of the last reference to a variable that is not set, and there is none if all
-- are set.
pub expand_env-print :
    (lookup_env : String → Option String) (segments : List Segment)
    → All IsPrintable segments
    → expand_env lookup_env (print "${" segments) ≡ render (env_value lookup_env) segments
unfolding expand_env
expand_env-print lookup_env segments h =
    expand_from-print (env_value lookup_env) _ "{" refl segments h

abbrev pub file_value : Formats → (String → Option String) → String → Result ExpandError String
file_value f read_file name = elim (read_file name) [
  | none ↦ err (unreadable_file name)
  | some content ↦ ok (if should_escape_file_content f content then f.quote content else content)
]

-- The same scan expands the references `${file:name}`, with the content of the file, escaped where
-- the code escapes it, and the error of the last file that cannot be read.
pub expand_file_config-print :
    (f : Formats) (read_file : String → Option String) (segments : List Segment)
    → All IsPrintable segments
    → expand_file_config f read_file (print "${file:" segments)
      ≡ render (file_value f read_file) segments
unfolding expand_file_config
expand_file_config-print f read_file segments h =
    expand_from-print (file_value f read_file) _ "{file:" refl segments h
