-- ===== src/Targets/Redis.antt =====
-- targets/redis/redisdriver/cmd.go: a key is kept as the number that `keyName` prints into its text.
use proofload_sh.Prelude.{
  ℕ, zero, suc, Option, none, some, List, [], ◌∷◌, ◌||◌, if◌then◌else◌, ℤ, pos, ltb_ℤ, pos_part,
  String, ◌==◌, string_eq, Dict, lookup,
}
use proofload_sh.Machine.{add64, mul64}
use proofload_sh.Workload.{Operation}
use proofload_sh.Targets.{Kind, read, write, scan, scan_limit_of}

-- `opPlan`, with the one key of a read or a write in `keys`.
pub record Plan : Type 0 where
  pub kind : Kind
  pub keys : List ℤ
  pub value : List ℕ

-- The loop of `scanKeys` from index i on.
pub keys_from : (left i : ℕ) → ℤ → List ℤ
keys_from zero i start = []
keys_from (suc left) i start = add64 start (pos i) ∷ keys_from left (suc i) start

-- `scanKeys`, for a count that is not negative.
pub scan_keys : ℤ → ℤ → List ℤ
unfolding keys_from
scan_keys start n = keys_from (pos_part n) 0 start

-- `planFor`: `none` is an operation type that is not supported.
unfoldable pub plan_for : Operation → ℤ → Option Plan
unfolding scan_keys
plan_for op limit =
    if op.type == "read" || op.type == "r"
    then some (record { kind = read; keys = op.key ∷ []; value = [] })
    else if op.type == "insert" || op.type == "w" || op.type == "update"
    then some (record { kind = write; keys = op.key ∷ []; value = op.value })
    else if op.type == "scan"
    then some (record { kind = scan; keys = scan_keys op.key (scan_limit_of limit); value = [] })
    else none

abbrev number_of : Option ℤ → ℤ
number_of none = pos 0
number_of (some n) = n

-- `waitReplicas`
pub wait_replicas : Dict String ℤ → ℤ
unfolding lookup
wait_replicas params =
    let first = number_of (lookup "wait_replicas" params) in
    let second = number_of (lookup "numreplicas" params) in
    if ltb_ℤ (pos 0) first then first else if ltb_ℤ (pos 0) second then second else pos 1

-- `waitTimeout`
pub wait_timeout : Dict String ℤ → ℤ
unfolding lookup
wait_timeout params =
    let n = number_of (lookup "wait_timeout_ms" params) in
    if ltb_ℤ (pos 0) n then mul64 n (pos 1000000) else pos 100000000

-- `consistency`
pub record Policy : Type 0 where
  pub waits : Option ℤ
  pub timeout : ℤ

-- `parseConsistency`: a policy that does not wait has no count of replicas.
pub parse_consistency : String → Dict String ℤ → Option Policy
unfolding wait_replicas wait_timeout
parse_consistency level params =
    if level == "" || level == "none"
    then some (record { waits = none; timeout = pos 0 })
    else if level == "wait" || level == "waitN"
    then some (record { waits = some (wait_replicas params); timeout = wait_timeout params })
    else none
