-- ===== src/Targets/Clickhouse.antt =====
-- targets/clickhouse/clickhousedriver/sql.go
use proofload_sh.Prelude.{
  Option, none, some, [], ◌∷◌, ◌||◌, if◌then◌else◌, ℤ, String, ◌==◌, string_eq,
}
use proofload_sh.Workload.{Operation}
use proofload_sh.Targets.{Plan, read, write, scan, number, bytes, scan_limit_of}

abbrev read_sql : String
read_sql = "SELECT v FROM proofload_kv WHERE k = ? ORDER BY seq DESC LIMIT 1"

abbrev insert_sql : String
insert_sql = "INSERT INTO proofload_kv (k, v, seq) VALUES (?, ?, ?)"

abbrev scan_sql : String
scan_sql = "SELECT k, v FROM proofload_kv WHERE k >= ? ORDER BY k LIMIT ?"

-- `planFor`: `none` is an operation type that is not supported.
unfoldable pub plan_for : Operation → ℤ → Option Plan
plan_for op limit =
    if op.type == "read" || op.type == "r"
    then some (record { stmt = read_sql; args = number op.key ∷ []; kind = read })
    else if op.type == "insert" || op.type == "w" || op.type == "update"
    then some (record {
      stmt = insert_sql;
      args = number op.key ∷ bytes op.value ∷ number op.seq ∷ [];
      kind = write;
    })
    else if op.type == "scan"
    then some (record {
      stmt = scan_sql;
      args = number op.key ∷ number (scan_limit_of limit) ∷ [];
      kind = scan;
    })
    else none
