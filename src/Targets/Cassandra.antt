-- ===== src/Targets/Cassandra.antt =====
-- targets/cassandra/cassandradriver/cql.go
use proofload_sh.Prelude.{
  Option, none, some, [], ◌∷◌, ◌||◌, if◌then◌else◌, ℤ, String, ◌==◌, string_eq,
}
use proofload_sh.Workload.{Operation}
use proofload_sh.Targets.{Plan, read, write, scan, number, bytes, scan_limit_of}

abbrev read_cql : String
read_cql = "SELECT v FROM kv WHERE k = ?"

abbrev insert_cql : String
insert_cql = "INSERT INTO kv (k, v, seq) VALUES (?, ?, ?)"

abbrev update_cql : String
update_cql = "UPDATE kv SET v = ?, seq = ? WHERE k = ?"

abbrev scan_cql : String
scan_cql = "SELECT k, v FROM kv WHERE token(k) >= token(?) LIMIT ?"

-- `planFor`: `none` is an operation type that is not supported.
unfoldable pub plan_for : Operation → ℤ → Option Plan
plan_for op limit =
    if op.type == "read" || op.type == "r"
    then some (record { stmt = read_cql; args = number op.key ∷ []; kind = read })
    else if op.type == "insert" || op.type == "w"
    then some (record {
      stmt = insert_cql;
      args = number op.key ∷ bytes op.value ∷ number op.seq ∷ [];
      kind = write;
    })
    else if op.type == "update"
    then some (record {
      stmt = update_cql;
      args = bytes op.value ∷ number op.seq ∷ number op.key ∷ [];
      kind = write;
    })
    else if op.type == "scan"
    then some (record {
      stmt = scan_cql;
      args = number op.key ∷ number (scan_limit_of limit) ∷ [];
      kind = scan;
    })
    else none

-- gocql.Consistency
pub data Consistency : Type 0 where
  quorum one local_quorum all : Consistency

-- `consistencyLevel`
pub consistency_level : String → Option Consistency
consistency_level level =
    if level == "" || level == "quorum"
    then some quorum
    else if level == "one"
    then some one
    else if level == "local_quorum" || level == "local-quorum"
    then some local_quorum
    else if level == "all"
    then some all
    else none
