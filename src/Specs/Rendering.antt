-- ===== src/Specs/Rendering.antt =====
-- `Destination.RenderedSyncGroupId` of cli/internal/specs/v0/destination.go against a description of
-- the sync group's id as text and placeholders.
use cloudquery_fork4devin.Base.{
  ◌≡◌, refl, ◌∙◌, ap, Bool, true, false, String, Char, code, List, [], ◌∷◌, map, append,
  replace_from, replace_all, has_prefix, lacks, num_eq, if◌then◌else◌, arith, All, Bool-cases, inl,
  inr,
}
use cloudquery_fork4devin.Specs.Destination.{
  Destination, rendered_sync_group_id, var_year, var_month, var_day, var_hour, var_minute,
  var_sync_id,
}

pub data Placeholder : Type 0 where
  year month day hour minute sync_id : Placeholder

abbrev pub token : Placeholder → String
token year = var_year
token month = var_month
token day = var_day
token hour = var_hour
token minute = var_minute
token sync_id = var_sync_id

pub data Part : Type 0 where
  text : String → Part
  placeholder : Placeholder → Part

-- A text has no `{`.
abbrev pub IsPlain : Part → Type 0
IsPlain (text s) = lacks b'{' s ≡ true
IsPlain (placeholder p) = Unit

abbrev pub print : List Part → String
print [] = ""
print (text s ∷ rest) = append s (print rest)
print (placeholder p ∷ rest) = append (token p) (print rest)

-- The id with the values in place of the placeholders.
abbrev pub render : (Placeholder → String) → List Part → String
render value [] = ""
render value (text s ∷ rest) = append s (render value rest)
render value (placeholder p ∷ rest) = append (value p) (render value rest)

-- `format` is `t.Format`, as in the model of the method.
abbrev pub value_of : (String → String) → String → Placeholder → String
value_of format id year = format "2006"
value_of format id month = format "01"
value_of format id day = format "02"
value_of format id hour = format "15"
value_of format id minute = format "04"
value_of format id sync_id = id

same : Placeholder → Placeholder → Bool
same year year = true
same month month = true
same day day = true
same hour hour = true
same minute minute = true
same sync_id sync_id = true
same _ _ = false

-- One replacement, on the description.
abbrev pass_part : Placeholder → String → Part → Part
pass_part p v (text s) = text s
pass_part p v (placeholder q) = if same p q then text v else placeholder q

pass : Placeholder → String → List Part → List Part
pass p v parts = map (pass_part p v) parts

has_prefix-other :
    (p : Placeholder) (c : Char) (s : String)
    → num_eq (code c) b'{' ≡ false
    → has_prefix (String.◌∷◌ c s) (token p) ≡ false
has_prefix-other year c s h = ground arith
has_prefix-other _ c s h = ground arith

replace_text :
    (p : Placeholder) (v a s : String)
    → lacks b'{' a ≡ true
    → replace_all (append a s) (token p) v ≡ append a (replace_all s (token p) v)
replace_text p v String.[] s h = refl
replace_text p v (String.◌∷◌ c a) s h =
    rw (has_prefix-other p c (append a s) (ground arith), replace_from)
      (ap (λ t. String.◌∷◌ c t) (replace_text p v a s (ground arith)))

-- No placeholder's token overlaps another's.
replace_token :
    (p q : Placeholder) (v s : String)
    → replace_all (append (token q) s) (token p) v
      ≡ append (if same p q then v else token q) (replace_all s (token p) v)
unfolding same
replace_token year year v s = refl
replace_token year _ v s = refl
replace_token month year v s = refl
replace_token month _ v s = refl
replace_token day year v s = refl
replace_token day _ v s = refl
replace_token hour year v s = refl
replace_token hour _ v s = refl
replace_token minute year v s = refl
replace_token minute _ v s = refl
replace_token sync_id year v s = refl
replace_token sync_id _ v s = refl

replace-pass :
    (p : Placeholder) (v : String) (parts : List Part)
    → All IsPlain parts
    → replace_all (print parts) (token p) v ≡ print (pass p v parts)
unfolding pass
replace-pass p v [] h = refl
replace-pass p v (text s ∷ rest) h =
    replace_text p v s (print rest) h.0 ∙ ap (append s) (replace-pass p v rest h.1)
replace-pass p v (placeholder q ∷ rest) h =
    replace_token p q v (print rest) ∙ (elim (Bool-cases (same p q)) [
      | inl e ↦ rw e (ap (append v) (replace-pass p v rest h.1))
      | inr e ↦ rw e (ap (append (token q)) (replace-pass p v rest h.1))
    ])

pass-IsPlain :
    (p : Placeholder) (v : String) (parts : List Part)
    → lacks b'{' v ≡ true
    → All IsPlain parts
    → All IsPlain (pass p v parts)
unfolding pass
pass-IsPlain p v [] hv h = tt
pass-IsPlain p v (text s ∷ rest) hv h = (h.0, pass-IsPlain p v rest hv h.1)
pass-IsPlain p v (placeholder q ∷ rest) hv h = elim (Bool-cases (same p q)) [
  | inl e ↦ rw e (hv, pass-IsPlain p v rest hv h.1)
  | inr e ↦ rw e (tt, pass-IsPlain p v rest hv h.1)
]

-- The six passes, in the order of the code.
all_passes : (Placeholder → String) → List Part → List Part
unfolding pass
all_passes value parts = pass sync_id (value sync_id) (
    pass minute (value minute) (
      pass hour (value hour)
        (pass day (value day) (pass month (value month) (pass year (value year) parts)))))

print-all_passes :
    (value : Placeholder → String) (parts : List Part)
    → print (all_passes value parts) ≡ render value parts
unfolding all_passes same
print-all_passes value [] = refl
print-all_passes value (text s ∷ rest) = ap (append s) (print-all_passes value rest)
print-all_passes value (placeholder year ∷ rest) =
    ap (append (value year)) (print-all_passes value rest)
print-all_passes value (placeholder q ∷ rest) = ap (append (value q)) (print-all_passes value rest)

-- A sync group's id that is made of texts without `{` and of the six placeholders is rendered with
-- the year, month, day, hour and minute of the time and the sync's id in place of the placeholders,
-- if none of these values but the sync's id has a `{`.
pub rendered_sync_group_id-print :
    (format : String → String) (id : String) (d : Destination) (parts : List Part)
    → d.sync_group_id ≡ print parts
    → All IsPlain parts
    → ((layout : String) → lacks b'{' (format layout) ≡ true)
    → rendered_sync_group_id format id d ≡ render (value_of format id) parts
unfolding rendered_sync_group_id all_passes
rendered_sync_group_id-print format id d parts e h plain =
    let p₁ = pass-IsPlain year (format "2006") parts (plain "2006") h in
    let p₂ = pass-IsPlain month (format "01") _ (plain "01") p₁ in
    let p₃ = pass-IsPlain day (format "02") _ (plain "02") p₂ in
    let p₄ = pass-IsPlain hour (format "15") _ (plain "15") p₃ in
    let p₅ = pass-IsPlain minute (format "04") _ (plain "04") p₄ in
    rw
      (
        e,
        replace-pass year (format "2006") parts h,
        replace-pass month (format "01") _ p₁,
        replace-pass day (format "02") _ p₂,
        replace-pass hour (format "15") _ p₃,
        replace-pass minute (format "04") _ p₄,
        replace-pass sync_id id _ p₅,
      )
      (print-all_passes (value_of format id) parts)
