-- ===== src/Specs/Expand.antt =====
-- cli/internal/specs/v0/spec_reader.go: `${file:…}`, `${time:…}` and `${…}` in a configuration are
-- replaced by `ReplaceAllFunc` over the matches of a regular expression.

use cloudquery_fork4devin.Base.{
  ℕ, zero, suc, ◌+◌, Bool, true, false, ◌||◌, String, Char, code, List, [], ◌∷◌, Option, none, some,
  Result, ok, err, append, size, strip_prefix, split, num_eq, if◌then◌else◌, ◌==◌,
}

-- The text before the first `}`.
abbrev pub until_brace : String → Option String
until_brace String.[] = none
until_brace (String.◌∷◌ c s) =
    let rest = until_brace s in
    if num_eq (code c) b'}'
    then some ""
    else elim rest [ none ↦ none | some t ↦ some (String.◌∷◌ c t) ]

abbrev pub not_empty : String → Option String
not_empty s = if s == "" then none else some s

-- The submatch of the regular expression `<opening>([^}]+)\}`, where it matches at the front.
unfoldable pub content_at : String → String → Option String
content_at opening s = elim (strip_prefix s opening) [
  | none ↦ none
  | some rest ↦ elim (until_brace rest) [ none ↦ none | some content ↦ not_empty content ]
]

module _ {E : Type 0} where
  abbrev pub put_char : Char → String × Option E → String × Option E
  put_char c (t, e) = (String.◌∷◌ c t, e)

  -- A callback that fails gives no text and sets the error, over one that was set before.
  abbrev pub put_value : Result E String → String × Option E → String × Option E
  put_value (ok v) (t, e) = (append v t, e)
  put_value (err x) (t, none) = (t, some x)
  put_value (err x) (t, some y) = (t, some y)

  -- `ReplaceAllFunc`: the leftmost matches, which do not overlap. The number counts the characters
  -- of a match that are still to be passed over.
  unfoldable pub expand_from : String → (String → Result E String) → ℕ → String → String × Option E
  expand_from opening value skip String.[] = ("", none)
  expand_from opening value (suc skip) (String.◌∷◌ c s) = expand_from opening value skip s
  expand_from opening value zero (String.◌∷◌ c s) = elim (content_at opening (String.◌∷◌ c s)) [
    | none ↦ put_char c (expand_from opening value zero s)
    | some content ↦
        put_value (value content) (expand_from opening value (size opening + size content) s)
  ]

pub data ExpandError : Type 0 where
  unreadable_file unset_variable bad_time : String → ExpandError

-- `expandEnv`. `lookup_env` is `os.LookupEnv`.
unfoldable pub expand_env : (String → Option String) → String → String × Option ExpandError
expand_env lookup_env =
    expand_from "${"
      (λ name. elim (lookup_env name) [
        | none ↦ err (unset_variable name)
        | some content ↦ ok content
      ])
      0

-- What the standard library tells of a file's content: `json.Valid`, `pem.Decode`, and the text of
-- `strconv.Quote` between its quotes.
pub record Formats : Type 0 where
  pub json_valid : String → Bool
  pub pem_decodes : String → Bool
  pub quote : String → String

-- `bytes.ContainsAny(content, "\n\r")`
abbrev pub has_line_break : String → Bool
has_line_break String.[] = false
has_line_break (String.◌∷◌ c s) = num_eq (code c) 10 || num_eq (code c) 13 || has_line_break s

unfoldable pub should_escape_file_content : Formats → String → Bool
should_escape_file_content f content =
    if has_line_break content
    then (if f.json_valid content then true else f.pem_decodes content)
    else false

-- `expandFileConfig`. `read_file` is `os.ReadFile`.
unfoldable pub expand_file_config :
    Formats → (String → Option String) → String → String × Option ExpandError
unfolding should_escape_file_content
expand_file_config f read_file =
    expand_from "${file:"
      (λ name. elim (read_file name) [
        | none ↦ err (unreadable_file name)
        | some content ↦
            ok (if should_escape_file_content f content then f.quote content else content)
      ])
      0

abbrev time_format : List String → String
time_format (relative ∷ format ∷ rest) = format
time_format _ = "2006-01-02T15:04:05Z07:00"

abbrev first_part : List String → String
first_part [] = ""
first_part (relative ∷ rest) = relative

-- `expandTime`. `format_time` parses a relative time and formats it: `none` where it does not parse.
unfoldable pub expand_time :
    (String → String → Option String) → String → String × Option ExpandError
expand_time format_time =
    expand_from "${time:"
      (λ text.
        let parts = split b'|' text in
        elim (format_time (first_part parts) (time_format parts)) [
          | none ↦ err (bad_time (first_part parts))
          | some time ↦ ok time
        ])
      0
