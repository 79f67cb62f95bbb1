-- ===== src/Snapshots.antt =====
-- core/domain/metrics.go: the time series of a run. A float64 is a value of a type F, and an instant is
-- its Unix time in nanoseconds.
use proofload_sh.Prelude.{ℤ, String}

-- domain.Percentiles
pub record Percentiles (F : Type 0) : Type 0 where
  pub count : ℤ
  pub mean : F
  pub p50 : F
  pub p90 : F
  pub p95 : F
  pub p99 : F
  pub p999 : F
  pub p9999 : F
  pub max : F

-- domain.LatencySnapshot
pub record LatencySnapshot (F : Type 0) : Type 0 where
  pub t : ℤ
  pub op_type : String
  pub throughput : F
  pub in_flight : ℤ
  pub errors : ℤ
  pub pct : Percentiles F
