-- ===== src/Cli/Paced.antt =====
-- The tests that need a rate have one.
use proofload_sh.Prelude.{◌≡◌, arith, some, ℤ, pos, String, string_eq, leb_ℤ, false}
use proofload_sh.Schedule.{open_loop, fixed, new_open_loop}
use proofload_sh.Cli.{resolve_test_type, build_scheduler, load}

-- A test that the flags resolve to a load test, named or by default, has a positive rate, and runs as an
-- open loop at that rate: it never falls back to the closed loop.
pub load_paced :
    (start duration rate : ℤ) (test : String)
    → resolve_test_type test rate ≡ some load
    → (leb_ℤ rate (pos 0) ≡ false)
      × (build_scheduler start load (record { mode = fixed; ops_per_sec = rate }) duration
          ≡ open_loop start rate (pos 0))
unfolding resolve_test_type build_scheduler new_open_loop
load_paced start duration rate test h = (ground arith, ground arith)
