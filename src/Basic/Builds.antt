-- ===== src/Basic/Builds.antt =====
-- A transformation that `Validate` accepts is built by `NewFromSpec`, without a nil pointer.
use cloudquery_fork4devin.Base.{
  ◌≡◌, refl, Bool, true, false, ◌||◌, String, Option, none, some, Result, ok, err, if◌then◌else◌,
  ◌==◌, arith, eq_iff, ◌⊎◌, inl, inr,
}
use cloudquery_fork4devin.Basic.Spec.{
  TransformationSpec, has_value, remove_columns, add_primary_keys, obfuscate_columns, add_column,
  add_current_timestamp_column, obfuscate_sensitive_columns, change_table_names, rename_column,
  lowercase, uppercase, drop_rows,
}
use cloudquery_fork4devin.Basic.SpecRules.{FollowsRule}
use cloudquery_fork4devin.Basic.Transformation.{
  Transformation, BuildError, new_from_spec, dereference,
}

abbrev is_ok : {A : Type 0} → Result BuildError A → Bool
is_ok (ok a) = true
is_ok (err e) = false

is_ok-if :
    {A : Type 0} (b : Bool) (x y : Result BuildError A)
    → (b ≡ true → is_ok x ≡ true)
    → (b ≡ false → is_ok y ≡ true)
    → is_ok (if b then x else y) ≡ true
is_ok-if true x y hx hy = hx refl
is_ok-if false x y hx hy = hy refl

dereference-is_ok :
    {A : Type 0} (value : Option String) (f : String → A)
    → has_value value ≡ true
    → is_ok (dereference value f) ≡ true
dereference-is_ok none f h = cc
dereference-is_ok (some v) f h = refl

-- The two kinds that read the value ask for it.
FollowsRule-has_value :
    (t : TransformationSpec)
    → FollowsRule t
    → ((t.kind == add_column) ≡ true) ⊎ ((t.kind == rename_column) ≡ true)
    → has_value t.value ≡ true
FollowsRule-has_value t h (inl e) =
    let k : t.kind ≡ add_column = (eq_iff t.kind add_column).0 e in ground (arith, rw k at h)
FollowsRule-has_value t h (inr e) =
    let k : t.kind ≡ rename_column = (eq_iff t.kind rename_column).0 e in ground (arith, rw k at h)

FollowsRule-is_ok : (t : TransformationSpec) → FollowsRule t → is_ok (new_from_spec t) ≡ true
unfolding new_from_spec
FollowsRule-is_ok t h =
    is_ok-if (t.kind == add_column) _ _
      (λ e. dereference-is_ok t.value _ (FollowsRule-has_value t h (inl e)))
      (λ n₁.
        is_ok-if (t.kind == add_current_timestamp_column) _ _ (λ e. refl)
          (λ n₂.
            is_ok-if (t.kind == remove_columns) _ _ (λ e. refl)
              (λ n₃.
                is_ok-if (t.kind == add_primary_keys) _ _ (λ e. refl)
                  (λ n₄.
                    is_ok-if (t.kind == obfuscate_columns) _ _ (λ e. refl)
                      (λ n₅.
                        is_ok-if (t.kind == change_table_names) _ _ (λ e. refl)
                          (λ n₆.
                            is_ok-if (t.kind == rename_column) _ _
                              (λ e. dereference-is_ok t.value _ (FollowsRule-has_value t h (inr e)))
                              (λ n₇.
                                is_ok-if (t.kind == obfuscate_sensitive_columns) _ _ (λ e. refl)
                                  (λ n₈.
                                    is_ok-if (t.kind == uppercase || t.kind == lowercase) _ _
                                      (λ e. refl)
                                      (λ n₉.
                                        is_ok-if (t.kind == drop_rows) _ _ (λ e. refl)
                                          (λ n. ground (
                                            arith, h, n₁, n₂, n₃, n₄, n₅, n₆, n₇, n₈, n₉, n,
                                          )))))))))))

is_ok-eq : {A : Type 0} (m : Result BuildError A) → is_ok m ≡ true → (a : A) × (m ≡ ok a)
is_ok-eq (ok a) h = (a, refl)
is_ok-eq (err e) h = cc

-- A transformation that follows the rule of its kind is built: its kind is known, and the value is
-- there where it is read.
pub FollowsRule-builds :
    (t : TransformationSpec) → FollowsRule t → (tr : Transformation) × (new_from_spec t ≡ ok tr)
FollowsRule-builds t h = is_ok-eq (new_from_spec t) (FollowsRule-is_ok t h)
