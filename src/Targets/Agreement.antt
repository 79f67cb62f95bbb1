-- ===== src/Targets/Agreement.antt =====
-- The drivers agree on the operations that they carry out.
use proofload_sh.Prelude.{◌≡◌, arith, Option, none, some, ℤ, string_eq}
use proofload_sh.Workload.{Operation}
use proofload_sh.Targets.{Kind, Plan}
use proofload_sh.Targets.Postgres as Postgres
use proofload_sh.Targets.Clickhouse as Clickhouse
use proofload_sh.Targets.Cassandra as Cassandra
use proofload_sh.Targets.Redis as Redis

abbrev pub kind_of : Option Plan → Option Kind
kind_of none = none
kind_of (some p) = some p.kind

abbrev pub command_kind : Option Redis.Plan → Option Kind
command_kind none = none
command_kind (some p) = some p.kind

-- Whatever the operation and the limit: the drivers of PostgreSQL, ClickHouse, Cassandra and Redis all refuse it,
-- or all plan it as a read, all as a write or all as a scan.
pub plan_for-agree :
    (op : Operation) (limit : ℤ)
    → (kind_of (Clickhouse.plan_for op limit) ≡ kind_of (Postgres.plan_for op limit))
      × (kind_of (Cassandra.plan_for op limit) ≡ kind_of (Postgres.plan_for op limit))
      × (command_kind (Redis.plan_for op limit) ≡ kind_of (Postgres.plan_for op limit))
unfolding Clickhouse.plan_for Postgres.plan_for Cassandra.plan_for Redis.plan_for
plan_for-agree op limit = (ground arith, ground arith, ground arith)
