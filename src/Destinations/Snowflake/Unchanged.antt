-- ===== src/Destinations/Snowflake/Unchanged.antt =====
-- When Snowflake's table is as it is wanted.
use cloudquery_fork4devin.Base.{
  Option-cases, String, subst, ◌||◌, arith, ◌≡◌, refl, Bool, true, false, ◌&&◌, not, List, [], ◌∷◌,
  ◌++◌, Option, none, some, All, is_some, if◌then◌else◌, Bool-cases, inl, inr,
}
use mathlib.Core.Logic.{◌↔◌}
use cloudquery_fork4devin.Destinations.Sdk.{Column, Table, Change}
use cloudquery_fork4devin.Destinations.Snowflake.{
  Snowflake, differs, when, find_column, column_changes, added_changes, removed_changes,
  get_table_changes,
}

append-nothing : {A : Type 0} (xs ys : List A) → (xs ++ ys) ≡ [] → (xs ≡ []) × (ys ≡ [])
append-nothing [] ys h = (refl, h)
append-nothing (x ∷ xs) ys h = cc

nothing-append : {A : Type 0} {xs ys : List A} → xs ≡ [] → ys ≡ [] → (xs ++ ys) ≡ []
nothing-append e f = rw (e, f) refl

All-map :
    {A : Type 0} {P Q : A → Type 0} → ((x : A) → P x → Q x) → (xs : List A) → All P xs → All Q xs
All-map f [] h = tt
All-map f (x ∷ xs) (h, hs) = (f x h, All-map f xs hs)

module _ (T : Type 0) (sf : Snowflake T) where
  -- The column is there with the same type, not-null constraint and key, and no unique constraint is
  -- there that is not wanted.
  abbrev unchanged : Column T → Option (Column T) → Bool
  unchanged c none = false
  unchanged c (some d) = not (differs T sf c d) && not (not c.unique && d.unique)

  when-nothing :
      (a b : Bool) (x y : Change T)
      → (when T sf a x ++ when T sf b y) ≡ []
      → (not a && not b) ≡ true
  when-nothing true b x y h = cc
  when-nothing false true x y h = cc
  when-nothing false false x y h = refl

  nothing-when :
      (a b : Bool) (x y : Change T)
      → (not a && not b) ≡ true
      → (when T sf a x ++ when T sf b y) ≡ []
  nothing-when true b x y h = cc
  nothing-when false true x y h = cc
  nothing-when false false x y h = refl

  column_changes-nothing :
      (c : Column T) (o : Option (Column T)) → column_changes T sf c o ≡ [] → unchanged c o ≡ true
  unfolding column_changes
  column_changes-nothing c none h = cc
  column_changes-nothing c (some d) h =
      when-nothing (differs T sf c d) (not c.unique && d.unique) _ _ h

  nothing-column_changes :
      (c : Column T) (o : Option (Column T)) → unchanged c o ≡ true → column_changes T sf c o ≡ []
  unfolding column_changes
  nothing-column_changes c none h = cc
  nothing-column_changes c (some d) h =
      nothing-when (differs T sf c d) (not c.unique && d.unique) _ _ h

  added_changes-nothing :
      (cs old : List (Column T))
      → added_changes T sf cs old ≡ []
      → All (λ c. unchanged c (find_column T sf old c.name) ≡ true) cs
  unfolding added_changes
  added_changes-nothing [] old h = tt
  added_changes-nothing (c ∷ cs) old h =
      let (one, rest) = append-nothing (column_changes T sf c (find_column T sf old c.name)) _ h in
      (
        column_changes-nothing c (find_column T sf old c.name) one,
        added_changes-nothing cs old rest,
      )

  nothing-added_changes :
      (cs old : List (Column T))
      → All (λ c. unchanged c (find_column T sf old c.name) ≡ true) cs
      → added_changes T sf cs old ≡ []
  unfolding added_changes
  nothing-added_changes [] old h = refl
  nothing-added_changes (c ∷ cs) old (one, rest) =
      nothing-append (nothing-column_changes c (find_column T sf old c.name) one)
        (nothing-added_changes cs old rest)

  removed_changes-nothing :
      (new cs : List (Column T))
      → removed_changes T sf new cs ≡ []
      → All (λ c. is_some (find_column T sf new c.name) ≡ true) cs
  unfolding removed_changes
  removed_changes-nothing new [] h = tt
  removed_changes-nothing new (c ∷ cs) h =
      elim (Bool-cases (is_some (find_column T sf new c.name))) [
        | inl e ↦ (
          e,
          removed_changes-nothing new cs (kept (is_some (find_column T sf new c.name)) _ _ e h),
        )
        | inr e ↦ cc (refused (is_some (find_column T sf new c.name)) _ _ e h)
      ]
    where
      kept : (b : Bool) (xs ys : List (Change T)) → b ≡ true → (if b then xs else ys) ≡ [] → xs ≡ []
      kept true xs ys e h = h
      kept false xs ys e h = cc

      refused :
          (b : Bool) (xs ys : List (Change T)) → b ≡ false → (if b then xs else ys) ≡ [] → ys ≡ []
      refused true xs ys e h = cc
      refused false xs ys e h = h

  nothing-removed_changes :
      (new cs : List (Column T))
      → All (λ c. is_some (find_column T sf new c.name) ≡ true) cs
      → removed_changes T sf new cs ≡ []
  unfolding removed_changes
  nothing-removed_changes new [] h = refl
  nothing-removed_changes new (c ∷ cs) (one, rest) = rw (one) (nothing-removed_changes new cs rest)

  -- The same by the search of the code.
  get_table_changes-found :
      (t old : Table T)
      → (get_table_changes T sf t old ≡ []) ↔ (
          All (λ c. unchanged c (find_column T sf old.columns c.name) ≡ true) t.columns
          × All (λ c. is_some (find_column T sf t.columns c.name) ≡ true) old.columns)
  unfolding get_table_changes
  get_table_changes-found t old = (
    λ h.
        let (one, rest) = append-nothing (added_changes T sf t.columns old.columns) _ h in
        (
          added_changes-nothing t.columns old.columns one,
          removed_changes-nothing t.columns old.columns rest,
        ),
    λ h.
        nothing-append (nothing-added_changes t.columns old.columns h.0)
          (nothing-removed_changes t.columns old.columns h.1),
  )

  -- The first column of a name, whatever its case.
  pub data FirstNamed (name : String) : List (Column T) → Column T → Type 0 where
    first_column :
        {c : Column T} {cs : List (Column T)}
        → sf.equal_fold c.name name ≡ true
        → FirstNamed name (c ∷ cs) c
    later_column :
        {c d : Column T} {cs : List (Column T)}
        → sf.equal_fold c.name name ≡ false
        → FirstNamed name cs d
        → FirstNamed name (c ∷ cs) d

  -- The database's column is as it is wanted.
  pub record IsSame (c d : Column T) : Type 0 where
    pub same_type : sf.type_equal c.type d.type ≡ true
    pub same_not_null : c.not_null ≡ d.not_null
    pub same_primary_key : c.primary_key ≡ d.primary_key
    pub unique_wanted : (not d.unique || c.unique) ≡ true

  pub record IsThere (old : List (Column T)) (c : Column T) : Type 0 where
    pub column : Column T
    pub first : FirstNamed c.name old column
    pub same : IsSame c column

  pub record IsWanted (new : List (Column T)) (d : Column T) : Type 0 where
    pub column : Column T
    pub first : FirstNamed d.name new column

  find_column-FirstNamed :
      (cs : List (Column T)) (name : String) (d : Column T)
      → find_column T sf cs name ≡ some d
      → FirstNamed name cs d
  unfolding find_column
  find_column-FirstNamed [] name d e = cc
  find_column-FirstNamed (c ∷ cs) name d e = elim (Bool-cases (sf.equal_fold c.name name)) [
    | inl same ↦
        let e' : some c ≡ some d = rw same at e in
        let s : c ≡ d = cc in subst (FirstNamed name (c ∷ cs)) s (first_column same)
    | inr other ↦ later_column other (find_column-FirstNamed cs name d (rw other at e))
  ]

  FirstNamed-find_column :
      {name : String} {cs : List (Column T)} {d : Column T}
      → FirstNamed name cs d
      → find_column T sf cs name ≡ some d
  unfolding find_column
  FirstNamed-find_column (first_column same) = rw same refl
  FirstNamed-find_column (later_column other f) = rw other (FirstNamed-find_column f)

  unchanged-IsSame : (c d : Column T) → unchanged c (some d) ≡ true → IsSame c d
  unchanged-IsSame c d e = record {
    same_type = ground (arith, e);
    same_not_null = ground (arith, e);
    same_primary_key = ground (arith, e);
    unique_wanted = ground (arith, e);
  }

  IsSame-unchanged : (c d : Column T) → IsSame c d → unchanged c (some d) ≡ true
  IsSame-unchanged c d s =
      ground (arith, s.same_type, s.same_not_null, s.same_primary_key, s.unique_wanted)

  unchanged-IsThere :
      (old : List (Column T)) (c : Column T)
      → (unchanged c (find_column T sf old c.name) ≡ true) ↔ IsThere old c
  unchanged-IsThere old c = (
    λ h. elim (Option-cases (find_column T sf old c.name)) [
      | inl missing ↦ cc (rw missing at h)
      | inr (d, found) ↦ record {
        column = d;
        first = find_column-FirstNamed old c.name d found;
        same = unchanged-IsSame c d (rw found at h);
      }
    ],
    λ t. rw (FirstNamed-find_column t.first) (IsSame-unchanged c t.column t.same),
  )

  find_column-IsWanted :
      (new : List (Column T)) (d : Column T)
      → (is_some (find_column T sf new d.name) ≡ true) ↔ IsWanted new d
  find_column-IsWanted new d = (
    λ h. elim (Option-cases (find_column T sf new d.name)) [
      | inl missing ↦ cc (rw missing at h)
      | inr (c, found) ↦ record { column = c; first = find_column-FirstNamed new d.name c found }
    ],
    λ w. rw (FirstNamed-find_column w.first) refl,
  )

  -- There are no changes exactly where, for each column that is wanted, the first one of the old table
  -- with its name, whatever the case, has the same type, not-null constraint and key, and a unique
  -- constraint only where one is wanted, and where for each column of the old table one with its name
  -- is wanted.
  pub get_table_changes-nothing_iff :
      (t old : Table T)
      → (get_table_changes T sf t old ≡ [])
        ↔ (All (IsThere old.columns) t.columns × All (IsWanted t.columns) old.columns)
  get_table_changes-nothing_iff t old =
      let (to, from) = get_table_changes-found t old in
      (
        λ h.
            let (there, wanted) = to h in
            (
              All-map (λ c. (unchanged-IsThere old.columns c).0) t.columns there,
              All-map (λ d. (find_column-IsWanted t.columns d).0) old.columns wanted,
            ),
        λ (there, wanted). from (
          All-map (λ c. (unchanged-IsThere old.columns c).1) t.columns there,
          All-map (λ d. (find_column-IsWanted t.columns d).1) old.columns wanted,
        ),
      )
