-- ===== src/Sync/ShardsAccepted.antt =====
-- Which shards are accepted.
use cloudquery_fork4devin.Base.{
  ◌≡◌, refl, ap, ℕ, ◌≤◌, ltb, Bool, true, false, ◌||◌, String, List, [], ◌∷◌, Option, none, some,
  Result, ok, err, split, if◌then◌else◌, ◌==◌, arith,
}
use cloudquery_fork4devin.Sync.Shards.{
  Int32, pos, negsuc, Shard, ShardError, not_positive, num_above_total, check_shard, with_num,
  of_parts, parse_shard,
}

-- A flag `num/total` with 1 ≤ num ≤ total.
pub record Names (parse_int : String → Option Int32) (flag : String) (s : Shard) : Type 0 where
  pub num_text : String
  pub total_text : String
  pub parts : split 47 flag ≡ num_text ∷ total_text ∷ []
  pub num_read : parse_int num_text ≡ some (pos s.num)
  pub total_read : parse_int total_text ≡ some (pos s.total)
  pub num_positive : 1 ≤ s.num
  pub num_bounded : s.num ≤ s.total

record Checks (n t : Int32) (s : Shard) : Type 0 where
  num_is : n ≡ pos s.num
  total_is : t ≡ pos s.total
  positive : 1 ≤ s.num
  bounded : s.num ≤ s.total

abbrev num_of : Result ShardError (Option Shard) → ℕ
num_of (ok (some s)) = s.num
num_of _ = 0

abbrev total_of : Result ShardError (Option Shard) → ℕ
total_of (ok (some s)) = s.total
total_of _ = 0

chosen :
    (low high : Bool) (n t : ℕ) (s : Shard)
    → (if low
        then err not_positive
        else if high
        then err num_above_total
        else ok (some (record { num = n; total = t })))
      ≡ ok (some s)
    → (low ≡ false) × (high ≡ false) × (n ≡ s.num) × (t ≡ s.total)
chosen true high n t s h = cc
chosen false true n t s h = cc
chosen false false n t s h = (refl, refl, ap num_of h, ap total_of h)

check_shard-Checks : (n t : Int32) (s : Shard) → check_shard n t ≡ ok (some s) → Checks n t s
check_shard-Checks (negsuc m) t s h = cc
check_shard-Checks (pos n) (negsuc m) s h = cc
check_shard-Checks (pos n) (pos t) s h =
    let (low, high, num, total) = chosen (ltb n 1 || ltb t 1) (ltb t n) n t s h in
    record {
      num_is = ap pos num;
      total_is = ap pos total;
      positive = ground (arith, low, num);
      bounded = ground (arith, high, num, total);
    }

with_num-Checks :
    (n t : Option Int32) (s : Shard)
    → with_num n t ≡ ok (some s)
    → (n ≡ some (pos s.num)) × (t ≡ some (pos s.total)) × (1 ≤ s.num) × (s.num ≤ s.total)
with_num-Checks none t s h = cc
with_num-Checks (some n) none s h = cc
with_num-Checks (some n) (some t) s h =
    let c = check_shard-Checks n t s h in
    (ap some c.num_is, ap some c.total_is, c.positive, c.bounded)

of_parts-Names :
    (parse_int : String → Option Int32) (flag : String) (parts : List String) (s : Shard)
    → split 47 flag ≡ parts
    → of_parts parse_int parts ≡ ok (some s)
    → Names parse_int flag s
of_parts-Names parse_int flag [] s e h = cc
of_parts-Names parse_int flag (a ∷ []) s e h = cc
of_parts-Names parse_int flag (a ∷ b ∷ c ∷ rest) s e h = cc
of_parts-Names parse_int flag (a ∷ b ∷ []) s e h =
    let (num, total, positive, bounded) = with_num-Checks (parse_int a) (parse_int b) s h in
    record {
      num_text = a;
      total_text = b;
      parts = e;
      num_read = num;
      total_read = total;
      num_positive = positive;
      num_bounded = bounded;
    }

not_empty :
    (b : Bool) (r : Result ShardError (Option Shard)) (s : Shard)
    → (if b then ok none else r) ≡ ok (some s)
    → r ≡ ok (some s)
not_empty true r s h = cc
not_empty false r s h = h

-- A shard is accepted only where the flag has two parts that `ParseInt` reads as its number and the
-- total, with 1 ≤ number ≤ total.
pub parse_shard-Names :
    (parse_int : String → Option Int32) (flag : String) (s : Shard)
    → parse_shard parse_int flag ≡ ok (some s)
    → Names parse_int flag s
unfolding parse_shard
parse_shard-Names parse_int flag s h =
    of_parts-Names parse_int flag (split 47 flag) s refl
      (not_empty (flag == "") (of_parts parse_int (split 47 flag)) s h)
