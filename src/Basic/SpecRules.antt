-- ===== src/Basic/SpecRules.antt =====
-- What `Validate` of plugins/transformer/basic/client/spec/spec.go accepts, as a table of rules.
use cloudquery_fork4devin.Base.{
  ◌≡◌, ◌≢◌, refl, ◌↔◌, Bool, true, false, ◌&&◌, ◌||◌, not, String, List, [], ◌∷◌, ◌++◌, Option,
  none, some, All, is_empty, if◌then◌else◌, ◌==◌, arith,
}
use cloudquery_fork4devin.Basic.Spec.{
  TransformationSpec, SpecIssue, SpecError, columns_given, columns_missing, name_missing,
  name_template_given, name_value_columns_given, name_value_missing, name_value_template_given,
  template_given, template_missing, unknown_kind, value_columns_template_given, value_given,
  kind_issues, template_issues, validate_from, validate, has, has_value, when, blame,
  remove_columns, add_primary_keys, obfuscate_columns, add_column, add_current_timestamp_column,
  obfuscate_sensitive_columns, change_table_names, rename_column, lowercase, uppercase, drop_rows,
}

-- What a kind of transformation asks of a field.
pub data Need : Type 0 where
  required forbidden free : Need

pub record Rule : Type 0 where
  pub columns : Need
  pub name : Need
  pub value : Need
  pub template : Need

abbrev pub rule_of : String → Option Rule
rule_of kind =
    if kind == remove_columns || kind == add_primary_keys || kind == obfuscate_columns
    then some
        (record { columns = required; name = forbidden; value = forbidden; template = forbidden })
    else if kind == add_column
    then some (record { columns = free; name = required; value = required; template = forbidden })
    else if kind == add_current_timestamp_column
    then some
        (record { columns = forbidden; name = required; value = forbidden; template = forbidden })
    else if kind == obfuscate_sensitive_columns
    then some
        (record { columns = forbidden; name = forbidden; value = forbidden; template = forbidden })
    else if kind == change_table_names
    then some
        (record { columns = forbidden; name = forbidden; value = forbidden; template = required })
    else if kind == rename_column
    then some
        (record { columns = forbidden; name = required; value = required; template = forbidden })
    else if kind == lowercase || kind == uppercase
    then some
        (record { columns = required; name = forbidden; value = forbidden; template = forbidden })
    else if kind == drop_rows
    then some (record { columns = required; name = free; value = free; template = free })
    else none

abbrev meets_need : Need → Bool → Bool
meets_need required given = given
meets_need forbidden given = not given
meets_need free given = true

abbrev meets_all : Option Rule → (columns name value template : Bool) → Bool
meets_all none columns name value template = false
meets_all (some r) columns name value template =
    meets_need r.columns columns
    && (meets_need r.name name && (meets_need r.value value && meets_need r.template template))

abbrev meets : Option Rule → TransformationSpec → Bool
meets r t =
    meets_all r (not (is_empty t.columns)) (has t.name) (has_value t.value)
      (has t.new_table_name_template)

-- The kind is known, and the fields that it needs are given and those that it forbids are not.
abbrev pub FollowsRule : TransformationSpec → Type 0
FollowsRule t = meets (rule_of t.kind) t ≡ true

record Matches (issues : List SpecIssue) (r : Option Rule) (t : TransformationSpec) : Type 0 where
  iff : (issues ≡ []) ↔ (meets r t ≡ true)

Matches-if :
    (b : Bool) (t : TransformationSpec) {x y : List SpecIssue} {r s : Option Rule}
    → Matches x r t
    → Matches y s t
    → Matches (if b then x else y) (if b then r else s) t
Matches-if true t hx hy = hx
Matches-if false t hx hy = hy

lists_lem :
    (c n v t : Bool)
    → (when (not c) columns_missing ++ when (n || v || t) name_value_template_given ≡ [])
      ↔ ((c && (not n && (not v && not t))) ≡ true)
lists_lem c n v t = ground arith

literal_lem :
    (c n v t : Bool)
    → (when (not n || not v) name_value_missing ++ when t template_given ≡ [])
      ↔ ((true && (n && (v && not t))) ≡ true)
literal_lem c n v t = ground arith

timestamp_lem :
    (c n v t : Bool)
    → (when (not n) name_missing
          ++ (when (v || c || t) value_columns_template_given ++ when t template_given)
        ≡ [])
      ↔ ((not c && (n && (not v && not t))) ≡ true)
timestamp_lem c n v t = ground arith

sensitive_lem :
    (c n v t : Bool)
    → (when c columns_given ++ when (n || v || t) name_value_template_given ≡ [])
      ↔ ((not c && (not n && (not v && not t))) ≡ true)
sensitive_lem c n v t = ground arith

table_name_lem :
    (c n v t : Bool)
    → (when (not t) template_missing ++ when (n || v || c) name_value_columns_given ≡ [])
      ↔ ((not c && (not n && (not v && t))) ≡ true)
table_name_lem c n v t = ground arith

renaming_lem :
    (c n v t : Bool)
    → (when (not n || not v) name_value_missing ++ (when t template_given ++ when c columns_given)
        ≡ [])
      ↔ ((not c && (n && (v && not t))) ≡ true)
renaming_lem c n v t = ground arith

case_lem :
    (c n v t : Bool)
    → (when v value_given ++ (when (not c) columns_missing ++ when (n || t) name_template_given)
        ≡ [])
      ↔ ((c && (not n && (not v && not t))) ≡ true)
case_lem c n v t = ground arith

rows_lem :
    (c : Bool) → (when (not c) columns_missing ≡ []) ↔ ((c && (true && (true && true))) ≡ true)
rows_lem c = ground arith

unknown-Matches : (t : TransformationSpec) → Matches (unknown_kind ∷ []) none t
unknown-Matches t = record { iff = (λ e. cc, λ e. cc) }

kind_issues-Matches : (t : TransformationSpec) → Matches (kind_issues t) (rule_of t.kind) t
unfolding kind_issues
kind_issues-Matches t =
    let columns = not (is_empty t.columns) in
    let name = has t.name in
    let value = has_value t.value in
    let template = has t.new_table_name_template in
    Matches-if _ t (record { iff = lists_lem columns name value template })
      (Matches-if _ t (record { iff = literal_lem columns name value template })
        (Matches-if _ t (record { iff = timestamp_lem columns name value template })
          (Matches-if _ t (record { iff = sensitive_lem columns name value template })
            (Matches-if _ t (record { iff = table_name_lem columns name value template })
              (Matches-if _ t (record { iff = renaming_lem columns name value template })
                (Matches-if _ t (record { iff = case_lem columns name value template })
                  (Matches-if _ t (record { iff = rows_lem columns }) (unknown-Matches t))))))))

blame_nil : (t : TransformationSpec) (issues : List SpecIssue) → blame t issues ≡ [] → issues ≡ []
blame_nil t [] e = refl
blame_nil t (i ∷ is) e = cc

validate_from-cons :
    (e : SpecError) (ts : List TransformationSpec) (es : List SpecError)
    → validate_from (e ∷ es) ts ≢ []
unfolding validate_from
validate_from-cons e [] es h = cc
validate_from-cons e (t ∷ ts) es h = validate_from-cons e ts _ h

validate_from-nil :
    (t : TransformationSpec) (ts : List TransformationSpec) (issues : List SpecIssue)
    → kind_issues t ≡ issues
    → (validate_from [] (t ∷ ts) ≡ []) ↔ ((issues ≡ []) × (validate_from [] ts ≡ []))
unfolding validate_from template_issues
validate_from-nil t ts [] e = rw (e, validate_from, template_issues) (λ h. (refl, h), λ h. h.1)
validate_from-nil t ts (i ∷ is) e =
    (λ h. elim (validate_from-cons _ ts _ (rw (e, validate_from) at h)) [ ], λ h. cc (h.0))

-- `Validate` gives no error exactly where every transformation follows the rule of its kind.
pub validate-FollowsRule : (ts : List TransformationSpec) → (validate ts ≡ []) ↔ All FollowsRule ts
unfolding validate
validate-FollowsRule [] = (λ e. tt, λ h. refl)
validate-FollowsRule (t ∷ ts) =
    let step = validate_from-nil t ts (kind_issues t) refl in
    let first = (kind_issues-Matches t).iff in
    let rest = validate-FollowsRule ts in
    (λ e. (first.0 (step.0 e).0, rest.0 (step.0 e).1), λ h. step.1 (first.1 h.0, rest.1 h.1))
