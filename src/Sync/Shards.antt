-- ===== src/Sync/Shards.antt =====
-- cli/cmd/sync.go: the shard of a sync.
use cloudquery_fork4devin.Base.{
  ℕ, ltb, ◌||◌, String, List, [], ◌∷◌, Option, none, some, Result, ok, err, split, if◌then◌else◌,
  ◌==◌,
}

-- `int32`, as `strconv.ParseInt` gives it
pub data Int32 : Type 0 where
  pos : ℕ → Int32
  negsuc : ℕ → Int32

pub record Shard : Type 0 where
  pub num : ℕ
  pub total : ℕ

pub data ShardError : Type 0 where
  invalid_format invalid_num invalid_total not_positive num_above_total : ShardError

abbrev pub check_shard : Int32 → Int32 → Result ShardError (Option Shard)
check_shard (negsuc m) t = err not_positive
check_shard (pos n) (negsuc m) = err not_positive
check_shard (pos n) (pos t) =
    if ltb n 1 || ltb t 1
    then err not_positive
    else if ltb t n
    then err num_above_total
    else ok (some (record { num = n; total = t }))

abbrev pub with_total : Int32 → Option Int32 → Result ShardError (Option Shard)
with_total n none = err invalid_total
with_total n (some t) = check_shard n t

abbrev pub with_num : Option Int32 → Option Int32 → Result ShardError (Option Shard)
with_num none t = err invalid_num
with_num (some n) t = with_total n t

abbrev pub of_parts : (String → Option Int32) → List String → Result ShardError (Option Shard)
of_parts parse_int (num ∷ total ∷ []) = with_num (parse_int num) (parse_int total)
of_parts parse_int _ = err invalid_format

-- `parseShard`, with `strconv.ParseInt` to 32 bits as a parameter.
unfoldable pub parse_shard : (String → Option Int32) → String → Result ShardError (Option Shard)
parse_shard parse_int flag = if flag == "" then ok none else of_parts parse_int (split 47 flag)
