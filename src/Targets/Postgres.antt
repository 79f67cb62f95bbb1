-- ===== src/Targets/Postgres.antt =====
-- targets/postgresql/pgdriver/sql.go
use proofload_sh.Prelude.{
  Option, none, some, [], ◌∷◌, ◌||◌, if◌then◌else◌, ℤ, String, ◌==◌, string_eq,
}
use proofload_sh.Workload.{Operation}
use proofload_sh.Targets.{Plan, read, write, scan, number, bytes, scan_limit_of}

-- `planFor`: `none` is an operation type that is not supported.
unfoldable pub plan_for : Operation → ℤ → Option Plan
plan_for op limit =
    if op.type == "read" || op.type == "r"
    then some (record { stmt = "pl_read"; args = number op.key ∷ []; kind = read })
    else if op.type == "insert" || op.type == "w"
    then some (record {
      stmt = "pl_upsert";
      args = number op.key ∷ bytes op.value ∷ number op.seq ∷ [];
      kind = write;
    })
    else if op.type == "update"
    then some (record {
      stmt = "pl_update";
      args = number op.key ∷ bytes op.value ∷ number op.seq ∷ [];
      kind = write;
    })
    else if op.type == "scan"
    then some (record {
      stmt = "pl_scan";
      args = number op.key ∷ number (scan_limit_of limit) ∷ [];
      kind = scan;
    })
    else none

-- pgx.TxIsoLevel
pub data IsoLevel : Type 0 where
  read_committed repeatable_read serializable : IsoLevel

-- `isoLevel`
pub iso_level : String → Option IsoLevel
iso_level level =
    if level == "" || level == "read-committed" || level == "read committed"
    then some read_committed
    else if level == "repeatable-read" || level == "repeatable read"
    then some repeatable_read
    else if level == "serializable"
    then some serializable
    else none
