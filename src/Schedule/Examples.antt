-- ===== src/Schedule/Examples.antt =====
-- The theorems on the schedules at concrete rates.
use proofload_sh.Prelude.{◌*◌, ◌/◌, ◌≡◌, ◌≢◌, ◌<◌, arith, List, [], ◌∷◌, some, pos, ◌+ℤ◌}
use proofload_sh.Machine.{two63}
use proofload_sh.Schedule.{RateStep, fixed, new_open_loop, new_ramp}
use proofload_sh.Schedule.Exact.{ns}
use proofload_sh.Schedule.Ramps.{Leg, Fits, walk, legs_of}
use proofload_sh.Schedule.Arrivals.{nth_time, ramp_times, open_loop_times}

open_loop_times_example :
    nth_time 4 (new_open_loop (pos 100) (record { mode = fixed; ops_per_sec = pos 3 }))
    ≡ some (pos 100 +ℤ pos (4 * ns / 3))
open_loop_times_example =
    open_loop_times (pos 100) 3 4 (omega arith) (omega arith) (omega arith) (omega arith)

-- One second at 2 operations per second, a step that is skipped, and then 4 operations per second.
abbrev two_steps : List RateStep
two_steps =
    record { ops_per_sec = pos 2; duration = pos 1000000000 }
    ∷ record { ops_per_sec = pos 0; duration = pos 1000000000 }
    ∷ record { ops_per_sec = pos 4; duration = pos 1000000000 }
    ∷ []

abbrev two_legs : List Leg
two_legs = record { rate = 2; length = 1000000000 } ∷ record { rate = 4; length = 1000000000 } ∷ []

two_steps-Fits : Fits (legs_of two_steps) 0 0
unfolding legs_of
two_steps-Fits = omega arith

two_steps-usable : legs_of two_steps ≢ []
unfolding legs_of
two_steps-usable h = cc

walk_3 : walk (legs_of two_steps) 3 < two63
unfolding legs_of walk
walk_3 = omega arith

ramp_times_example :
    nth_time 3 (new_ramp (pos 100) two_steps) ≡ some (pos 100 +ℤ pos (walk (legs_of two_steps) 3))
ramp_times_example =
    ramp_times (pos 100) two_steps 3 two_steps-usable two_steps-Fits (omega arith) walk_3
