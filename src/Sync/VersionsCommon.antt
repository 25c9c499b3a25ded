-- ===== src/Sync/VersionsCommon.antt =====
-- What the three results of `findMaxCommonVersion` say.
use cloudquery_fork4devin.Base.{
  ◌≡◌, refl, ◌⊎◌, ◌∙◌, sym, ap, num_eq_iff, subst, ℕ, ◌≤◌, ◌<◌, Bool, true, false, ◌||◌, List, [],
  ◌∷◌, Option, none, some, ltb, contains_num, num_eq, if◌then◌else◌, arith, Bool-cases,
  Option-cases, inl, inr,
}
use cloudquery_fork4devin.Sync.Versions.{
  MaxVersion, common, upgrade_plugin, upgrade_cli, max_int32, larger, smaller, max_cli_supported,
  scan_plugin, above, find_max_common_version,
}

-- The plugin has no versions, or one that is not above one of the CLI, which may also be math.MaxInt32,
-- where the minimum of the plugin's versions starts.
pub data IsOlder (plugin cli : List ℕ) : Type 0 where
  no_versions : plugin ≡ [] → IsOlder plugin cli
  not_above :
      (v w : ℕ)
      → contains_num plugin v ≡ true
      → contains_num cli w ≡ true
      → v ≤ w
      → IsOlder plugin cli
  out_of_range : (w : ℕ) → contains_num cli w ≡ true → max_int32 ≤ w → IsOlder plugin cli

-- What the plugins' versions and those of the CLI have to be for a result.
abbrev pub Justified : List ℕ → List ℕ → MaxVersion → Type 0
Justified plugin cli (common n) =
    (contains_num plugin n ≡ true)
    × (contains_num cli n ≡ true)
    × ((v : ℕ) → contains_num plugin v ≡ true → contains_num cli v ≡ true → v ≤ n)
Justified plugin cli upgrade_cli =
    (v w : ℕ) → contains_num plugin v ≡ true → contains_num cli w ≡ true → w < v
Justified plugin cli upgrade_plugin =
    ((v : ℕ) → contains_num plugin v ≡ true → contains_num cli v ≡ false) × IsOlder plugin cli

same_num : (xs : List ℕ) (v w : ℕ) → num_eq v w ≡ true → contains_num xs v ≡ contains_num xs w
same_num xs v w e = ap (contains_num xs) ((num_eq_iff v w).0 e)

-- The largest common version so far, of those seen.
abbrev IsMax : List ℕ → (ℕ → Bool) → Option ℕ → Type 0
IsMax cli seen none = (v : ℕ) → seen v ≡ true → contains_num cli v ≡ false
IsMax cli seen (some n) =
    (seen n ≡ true)
    × (contains_num cli n ≡ true)
    × ((v : ℕ) → seen v ≡ true → contains_num cli v ≡ true → v ≤ n)

IsMax-step :
    (cli : List ℕ) (seen : ℕ → Bool) (max : Option ℕ) (v : ℕ)
    → IsMax cli seen max
    → IsMax cli (λ w. seen w || num_eq w v) (if contains_num cli v then larger max v else max)
IsMax-step cli seen none v h = elim (Bool-cases (contains_num cli v)) [
  | inl supported ↦ rw supported (ground arith, supported, λ w e c. ground (arith, h w, c))
  | inr other ↦ rw other (λ w e. ground (arith, h w, other, same_num cli w v))
]
IsMax-step cli seen (some n) v h = elim (Bool-cases (contains_num cli v)) [
  | inr other ↦
      rw other
        (ground (arith, h.0), h.1, λ w e c. ground (arith, h.2 w, other, c, same_num cli w v))
  | inl supported ↦ elim (Bool-cases (ltb n v)) [
    | inl more ↦
        rw (supported, more) (ground arith, supported, λ w e c. ground (arith, h.2 w, more, c))
    | inr less ↦
        rw (supported, less) (ground (arith, h.0), h.1, λ w e c. ground (arith, h.2 w, less, c))
  ]
]

IsMax-ext :
    (cli : List ℕ) (p q : ℕ → Bool) (max : Option ℕ)
    → ((v : ℕ) → p v ≡ q v)
    → IsMax cli p max
    → IsMax cli q max
IsMax-ext cli p q none h m = λ v e. m v (h v ∙ e)
IsMax-ext cli p q (some n) h m = (sym (h n) ∙ m.0, m.1, λ v e c. m.2 v (h v ∙ e) c)

scan_plugin-IsMax :
    (cli vs : List ℕ) (seen : ℕ → Bool) (min : ℕ) (max : Option ℕ)
    → IsMax cli seen max
    → IsMax cli (λ v. seen v || contains_num vs v) (scan_plugin cli vs min max).1
unfolding scan_plugin
scan_plugin-IsMax cli [] seen min max h = IsMax-ext cli seen _ max (λ v. ground arith) h
scan_plugin-IsMax cli (v ∷ vs) seen min max h =
    IsMax-ext cli (λ w. (seen w || num_eq w v) || contains_num vs w) _ _ (λ w. ground arith)
      (scan_plugin-IsMax cli vs (λ w. seen w || num_eq w v) (smaller min v) _
        (IsMax-step cli seen max v h))

-- The minimum is below each version that is seen.
scan_plugin-min :
    (cli vs : List ℕ) (min : ℕ) (max : Option ℕ)
    → ((scan_plugin cli vs min max).0 ≤ min)
      × ((v : ℕ) → contains_num vs v ≡ true → (scan_plugin cli vs min max).0 ≤ v)
unfolding scan_plugin
scan_plugin-min cli [] min max = (omega arith, λ v e. cc)
scan_plugin-min cli (v ∷ vs) min max =
    let (below, all) =
      scan_plugin-min cli vs (smaller min v) (if contains_num cli v then larger max v else max) in
    (ground (arith, below), λ w e. ground (arith, below, all w))

-- The maximum is above each version that is seen.
abbrev AtMost : ℕ → Option ℕ → Type 0
AtMost v none = false ≡ true
AtMost v (some m) = v ≤ m

AtMost-larger : (v w : ℕ) (max : Option ℕ) → AtMost w max → AtMost w (larger max v)
AtMost-larger v w none h = cc
AtMost-larger v w (some m) h = elim (Bool-cases (ltb m v)) [
  | inl more ↦ rw more (ground (arith, h, more))
  | inr less ↦ rw less h
]

AtMost-self : (v : ℕ) (max : Option ℕ) → AtMost v (larger max v)
AtMost-self v none = omega arith
AtMost-self v (some m) = elim (Bool-cases (ltb m v)) [
  | inl more ↦ rw more (omega arith)
  | inr less ↦ rw less (ground (arith, less))
]

max_cli-keeps :
    (vs : List ℕ) (max : Option ℕ) (w : ℕ) → AtMost w max → AtMost w (max_cli_supported vs max)
unfolding max_cli_supported
max_cli-keeps [] max w h = h
max_cli-keeps (v ∷ vs) max w h = max_cli-keeps vs (larger max v) w (AtMost-larger v w max h)

max_cli-above :
    (vs : List ℕ) (max : Option ℕ) (w : ℕ)
    → contains_num vs w ≡ true
    → AtMost w (max_cli_supported vs max)
unfolding max_cli_supported
max_cli-above [] max w e = cc
max_cli-above (v ∷ vs) max w e = elim (Bool-cases (num_eq w v)) [
  | inl same ↦
      let s : v ≡ w = sym ((num_eq_iff w v).0 same) in
      max_cli-keeps vs (larger max v) w (subst (λ x. AtMost x (larger max v)) s (AtMost-self v max))
  | inr other ↦ max_cli-above vs (larger max v) w (ground (arith, e, other))
]

above-AtMost : (n w : ℕ) (max : Option ℕ) → above n max ≡ true → AtMost w max → w < n
above-AtMost n w none e h = cc
above-AtMost n w (some m) e h = ground (arith, e, h)

-- The minimum is where it starts or one that is seen, and the maximum likewise.
scan_plugin-Member :
    (cli vs : List ℕ) (min : ℕ) (max : Option ℕ)
    → let m = (scan_plugin cli vs min max).0 in (m ≡ min) ⊎ (contains_num vs m ≡ true)
unfolding scan_plugin
scan_plugin-Member cli [] min max = inl refl
scan_plugin-Member cli (v ∷ vs) min max =
    let next = if contains_num cli v then larger max v else max in
    elim (scan_plugin-Member cli vs (smaller min v) next) [
      | inr e ↦ inr (ground (arith, e))
      | inl e ↦ elim (Bool-cases (ltb v min)) [
        | inl less ↦ inr (ground (arith, e, less))
        | inr more ↦ inl (ground (arith, e, more))
      ]
    ]

larger-Member :
    (vs : List ℕ) (max : Option ℕ) (v m : ℕ)
    → larger max v ≡ some m
    → (max ≡ some m) ⊎ (contains_num (v ∷ vs) m ≡ true)
larger-Member vs none v m e = inr (ground (arith, e))
larger-Member vs (some n) v m e = elim (Bool-cases (ltb n v)) [
  | inl more ↦ inr (ground (arith, rw more at e))
  | inr less ↦ inl (rw less at e)
]

max_cli-Member :
    (vs : List ℕ) (max : Option ℕ) (m : ℕ)
    → max_cli_supported vs max ≡ some m
    → (max ≡ some m) ⊎ (contains_num vs m ≡ true)
unfolding max_cli_supported
max_cli-Member [] max m e = inl e
max_cli-Member (v ∷ vs) max m e = elim (max_cli-Member vs (larger max v) m e) [
  | inr seen ↦ inr (ground (arith, seen))
  | inl last ↦ larger-Member vs max v m last
]

upgrade_plugin-IsOlder :
    (cli ps : List ℕ)
    → above (scan_plugin cli ps max_int32 none).0 (max_cli_supported cli none) ≡ false
    → IsOlder ps cli
upgrade_plugin-IsOlder cli ps e = elim (Option-cases (max_cli_supported cli none)) [
  | inl missing ↦ cc (rw missing at e)
  | inr (w, found) ↦
      let low = (scan_plugin cli ps max_int32 none).0 in
      let below : low ≤ w = ground (arith, rw found at e) in
      elim (max_cli-Member cli none w found) [
        | inl impossible ↦ cc
        | inr supported ↦ elim (scan_plugin-Member cli ps max_int32 none) [
          | inr seen ↦ not_above low w seen supported below
          | inl start ↦ out_of_range w supported (subst (λ m. m ≤ w) start below)
        ]
      ]
]

-- The result is a version that both sides support, and the largest such; or -2, and every version
-- that the plugin supports is above every version that the CLI supports; or -1, and they have no
-- version in common, and the plugin supports no version at all or one that is not above some version of
-- the CLI, or the CLI supports one that is out of the range of 32 bits.
pub find_max_common_version_lem :
    (plugin cli : List ℕ) → Justified plugin cli (find_max_common_version plugin cli)
unfolding find_max_common_version
find_max_common_version_lem [] cli = (λ v e. cc, no_versions refl)
find_max_common_version_lem (p ∷ ps) cli =
    let scan = scan_plugin cli (p ∷ ps) max_int32 none in
    let max_cli = max_cli_supported cli none in
    let best = scan_plugin-IsMax cli (p ∷ ps) (λ v. false) max_int32 none (λ v e. cc) in
    let below = (scan_plugin-min cli (p ∷ ps) max_int32 none).1 in
    elim (Option-cases scan.1) [
      | inr (n, found) ↦ rw (found, find_max_common_version) (rw found at best)
      | inl missing ↦
          let none_common = rw missing at best in
          elim (Bool-cases (above scan.0 max_cli)) [
            | inl new ↦
                rw (missing, new, find_max_common_version)
                  (λ v w e c. ground (
                    arith,
                    below v e,
                    above-AtMost scan.0 w max_cli new (max_cli-above cli none w c),
                  ))
            | inr old ↦
                rw (missing, old, find_max_common_version)
                  (none_common, upgrade_plugin-IsOlder cli (p ∷ ps) old)
          ]
    ]
