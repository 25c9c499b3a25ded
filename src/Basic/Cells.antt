-- ===== src/Basic/Cells.antt =====
-- plugins/transformer/basic/client/recordupdater/record_updater.go: the cells of a column that is
-- redacted or whose case is changed.
use cloudquery_fork4devin.Base.{ℕ, suc, String, List, [], ◌∷◌, map, Option, none, some, concat}
use cloudquery_fork4devin.Arrow.{Arrow, Cell}
use cloudquery_fork4devin.Basic.Names.{JsonColumn}
use cloudquery_fork4devin.Basic.Tools.{Tools, JsonMatch}

abbrev pub redacted_by_cq_message : String
redacted_by_cq_message = "Redacted by CloudQuery |"

abbrev pub redacted_by_cq_json_name : String
redacted_by_cq_json_name = "redacted_by_cloudquery"

-- `n` cells of one text.
abbrev pub repeat_cell : ℕ → String → List Cell
repeat_cell Prim.Native.Nat.zero s = []
repeat_cell (suc n) s = some s ∷ repeat_cell n s

-- A null cell stays null.
abbrev pub map_cell : (String → String) → Cell → Cell
map_cell f none = none
map_cell f (some s) = some (f s)

module _ (a : Arrow) (tools : Tools a) where
  -- `buildStringColumn`
  unfoldable pub build_string_column : String → ℕ → a.Array
  build_string_column value rows = a.string_array (repeat_cell rows value)

  abbrev pub redacted : String → String
  redacted s = concat (redacted_by_cq_message ∷ " " ∷ tools.sha256 s ∷ [])

  -- `obfuscateColumn`
  unfoldable pub obfuscate_column : a.Array → a.Array
  obfuscate_column c = a.string_array (map (map_cell redacted) (a.cells c))

  -- The document with one path set, where that does not fail.
  abbrev set_or_keep : String → String → String → String
  set_or_keep doc path value = elim (tools.json_set doc path value) [ none ↦ doc | some new ↦ new ]

  -- The loop over the paths: values are read from the document as it was.
  unfoldable pub obfuscate_paths : String → List JsonColumn → String → String
  obfuscate_paths old [] doc = doc
  obfuscate_paths old (jc ∷ jcs) doc =
      obfuscate_paths old jcs (elim (tools.json_get old jc.column_path) [
        | none ↦ doc
        | some val ↦ set_or_keep doc jc.column_path (redacted val.raw)
      ])

  -- `obfuscateJSONColumns`
  unfoldable pub obfuscate_json_columns : List JsonColumn → a.Array → a.Array
  unfolding obfuscate_paths
  obfuscate_json_columns jcs c =
      a.json_array (map (map_cell (λ s. obfuscate_paths s jcs s)) (a.cells c))

  -- The cells of a binary column, by their values; null where the column is of another array type.
  abbrev pub binary_cells : Option (ℕ → String) → ℕ → List Cell → List Cell
  binary_cells value i [] = []
  binary_cells value i (none ∷ cs) = none ∷ binary_cells value (suc i) cs
  binary_cells none i (some s ∷ cs) = none ∷ binary_cells none (suc i) cs
  binary_cells (some value) i (some s ∷ cs) =
      some (redacted (value i)) ∷ binary_cells (some value) (suc i) cs

  -- `obfuscateBinaryColumn`
  unfoldable pub obfuscate_binary_column : a.Array → a.Array
  obfuscate_binary_column c = a.binary_array (binary_cells (tools.as_binary c) 0 (a.cells c))

  -- A cell whose document cannot be made is not appended.
  abbrev pub entire_json_cells : List Cell → List Cell
  entire_json_cells [] = []
  entire_json_cells (none ∷ cs) = none ∷ entire_json_cells cs
  entire_json_cells (some s ∷ cs) =
      let rest = entire_json_cells cs in
      elim (tools.json_set "{}" redacted_by_cq_json_name (tools.sha256 s)) [
        | none ↦ rest
        | some doc ↦ some doc ∷ rest
      ]

  -- `obfuscateEntireJSONColumn`
  unfoldable pub obfuscate_entire_json_column : a.Array → a.Array
  obfuscate_entire_json_column c = a.json_array (entire_json_cells (a.cells c))

  -- `changeColumnCase` and `changeCaseEntireJSONColumn`
  unfoldable pub change_column_case : (String → String) → a.Array → a.Array
  change_column_case caser c = a.string_array (map (map_cell caser) (a.cells c))

  unfoldable pub change_case_entire_json_column : (String → String) → a.Array → a.Array
  change_case_entire_json_column caser c = a.json_array (map (map_cell caser) (a.cells c))

  abbrev changed_case : (String → String) → String → JsonMatch → String → String
  changed_case caser path val doc = elim val.string [
    | none ↦ doc
    | some s ↦ set_or_keep doc path (caser s)
  ]

  unfoldable pub change_case_paths : (String → String) → String → List JsonColumn → String → String
  change_case_paths caser old [] doc = doc
  change_case_paths caser old (jc ∷ jcs) doc =
      change_case_paths caser old jcs (elim (tools.json_get old jc.column_path) [
        | none ↦ doc
        | some val ↦ changed_case caser jc.column_path val doc
      ])

  -- `chanceCaseJSONColumns`
  unfoldable pub change_case_json_columns : (String → String) → List JsonColumn → a.Array → a.Array
  unfolding change_case_paths
  change_case_json_columns caser jcs c =
      a.json_array (map (map_cell (λ s. change_case_paths caser s jcs s)) (a.cells c))
