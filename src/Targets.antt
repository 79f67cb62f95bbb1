-- ===== src/Targets.antt =====
-- The plans of operations in the drivers of the SQL targets and of Redis, what they share. A parameter of the
-- workload is kept as the number that `asInt` or `paramInt` makes of it.
pub mod Postgres
pub mod Clickhouse
pub mod Cassandra
pub mod Redis
pub mod Agreement
use proofload_sh.Prelude.{
  ℕ, Bool, true, false, ◌||◌, Option, none, some, List, [], ◌∷◌, if◌then◌else◌, ℤ, pos, ltb_ℤ,
  leb_ℤ, String, ◌==◌, string_eq, Dict, lookup,
}

-- `opKind` and `cmdKind`
pub data Kind : Type 0 where
  read write scan : Kind

-- A bound argument.
pub data Arg : Type 0 where
  number : ℤ → Arg
  bytes : List ℕ → Arg

-- `opPlan`
pub record Plan : Type 0 where
  pub stmt : String
  pub args : List Arg
  pub kind : Kind

abbrev pub default_scan_limit : ℤ
default_scan_limit = pos 100

abbrev pub scan_limit_of : ℤ → ℤ
scan_limit_of limit = if leb_ℤ limit (pos 0) then default_scan_limit else limit

abbrev positive : Option ℤ → Option ℤ
positive none = none
positive (some n) = if ltb_ℤ (pos 0) n then some n else none

abbrev first_limit : Option ℤ → Option ℤ → ℤ
first_limit (some n) o = n
first_limit none (some n) = n
first_limit none none = default_scan_limit

-- `scanLimitFromWorkload`
pub scan_limit_from_workload : Dict String ℤ → ℤ
unfolding lookup
scan_limit_from_workload params =
    first_limit (positive (lookup "scan_limit" params)) (positive (lookup "limit" params))
