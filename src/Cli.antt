-- ===== src/Cli.antt =====
-- core/cli/testtype.go: the type of a test from its flags, and the arrival schedule of a test type.
pub mod Paced
pub mod Distributed
pub mod Verification
pub mod Faults
pub mod Run
pub mod Examples
use proofload_sh.Prelude.{
  Bool, Option, none, some, if◌then◌else◌, ℤ, pos, ltb_ℤ, leb_ℤ, String, ◌==◌, string_eq,
}
use proofload_sh.Machine.{div64}
use proofload_sh.Schedule.{Scheduler, RateSpec, second, new_closed_loop, new_open_loop, linear_ramp}

-- `TestType`
pub data TestType : Type 0 where
  benchmark load stress acid combined : TestType

-- A test that needs a rate: `none` is the error without one.
abbrev pub rated : ℤ → TestType → Option TestType
rated rate t = if leb_ℤ rate (pos 0) then none else some t

-- `resolveTestType`, from the --test and the --rate flag; `none` is an error.
pub resolve_test_type : String → ℤ → Option TestType
resolve_test_type test rate =
    if test == ""
    then (if ltb_ℤ (pos 0) rate then some load else some benchmark)
    else if test == "benchmark"
    then some benchmark
    else if test == "load"
    then rated rate load
    else if test == "stress"
    then rated rate stress
    else if test == "acid"
    then some acid
    else if test == "combined"
    then some combined
    else none

-- `buildScheduler`
pub build_scheduler : ℤ → TestType → RateSpec → ℤ → Scheduler
build_scheduler start benchmark rate duration = new_closed_loop start
build_scheduler start stress rate duration =
    let top = rate.ops_per_sec in
    let fifth = div64 top (pos 5) in
    let from = if ltb_ℤ fifth (pos 1) then pos 1 else fifth in
    let step = div64 duration (pos 5) in
    linear_ramp start from top (pos 5) (if leb_ℤ step (pos 0) then second else step)
build_scheduler start load rate duration = new_open_loop start rate
build_scheduler start acid rate duration = new_open_loop start rate
build_scheduler start combined rate duration = new_open_loop start rate
