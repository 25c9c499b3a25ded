-- ===== src/Sync/Versions.antt =====
-- `findMaxCommonVersion` of cli/cmd/sync.go. Protocol versions are not negative; the results -1 and
-- -2 are values of their own.
use cloudquery_fork4devin.Base.{
  ℕ, Bool, true, List, [], ◌∷◌, Option, none, some, is_empty, ltb, contains_num, if◌then◌else◌,
}

pub data MaxVersion : Type 0 where
  common : ℕ → MaxVersion
  -- -1 and -2
  upgrade_plugin upgrade_cli : MaxVersion

-- math.MaxInt32
abbrev pub max_int32 : ℕ
max_int32 = 2147483647

-- A maximum that starts at -1.
abbrev pub larger : Option ℕ → ℕ → Option ℕ
larger none v = some v
larger (some m) v = if ltb m v then some v else some m

abbrev pub smaller : ℕ → ℕ → ℕ
smaller m v = if ltb v m then v else m

-- The two loops. `minCLISupported` is not used after its loop.
unfoldable pub max_cli_supported : List ℕ → Option ℕ → Option ℕ
max_cli_supported [] max = max
max_cli_supported (v ∷ vs) max = max_cli_supported vs (larger max v)

unfoldable pub scan_plugin : List ℕ → List ℕ → ℕ → Option ℕ → ℕ × Option ℕ
scan_plugin cli [] min max = (min, max)
scan_plugin cli (v ∷ vs) min max =
    scan_plugin cli vs (smaller min v) (if contains_num cli v then larger max v else max)

-- `n > m`, where `m` may be -1.
abbrev pub above : ℕ → Option ℕ → Bool
above n none = true
above n (some m) = ltb m n

unfoldable pub find_max_common_version : List ℕ → List ℕ → MaxVersion
unfolding max_cli_supported scan_plugin
find_max_common_version plugin cli =
    if is_empty plugin
    then upgrade_plugin
    else (let max_cli = max_cli_supported cli none in
        let (min, max) = scan_plugin cli plugin max_int32 none in
        elim max [
          | some n ↦ common n
          | none ↦ if above min max_cli then upgrade_cli else upgrade_plugin
        ])
