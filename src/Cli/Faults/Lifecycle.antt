-- ===== src/Cli/Faults/Lifecycle.antt =====
-- What the calls on a run's nemesis do to its scheduler.
use proofload_sh.Prelude.{◌≡◌, refl, arith, Bool, true, false, List, [], ◌∷◌, if◌then◌else◌}
use proofload_sh.Cli.Faults.{Effect, launched, cancelled, Call, begin_call, stop_call, call_all}

abbrev pub cancel_at_stop : List Call → List Effect
cancel_at_stop [] = []
cancel_at_stop (stop_call ∷ cs) = cancelled ∷ []
cancel_at_stop (begin_call ∷ cs) = cancel_at_stop cs

abbrev pub launch_at_begin : List Call → List Effect
launch_at_begin [] = []
launch_at_begin (stop_call ∷ cs) = launch_at_begin cs
launch_at_begin (begin_call ∷ cs) = launched ∷ cancel_at_stop cs

call_all-stopped :
    (cs : List Call)
    → call_all cs (record { scheduled = true; started = true; stopped = true }) ≡ []
unfolding call_all
call_all-stopped [] = refl
call_all-stopped (begin_call ∷ cs) = call_all-stopped cs
call_all-stopped (stop_call ∷ cs) = call_all-stopped cs

call_all-started :
    (cs : List Call)
    → call_all cs (record { scheduled = true; started = true; stopped = false }) ≡ cancel_at_stop cs
unfolding call_all
call_all-started [] = refl
call_all-started (begin_call ∷ cs) = call_all-started cs
call_all-started (stop_call ∷ cs) = ground (arith, call_all-stopped cs)

call_all-unscheduled :
    (cs : List Call)
    → call_all cs (record { scheduled = false; started = false; stopped = false }) ≡ []
unfolding call_all
call_all-unscheduled [] = refl
call_all-unscheduled (begin_call ∷ cs) = call_all-unscheduled cs
call_all-unscheduled (stop_call ∷ cs) = call_all-unscheduled cs

-- Whatever the order of the calls: the scheduler of a run that has one is launched by the first `begin`, and
-- cancelled, once, by the first `stop` after it; nothing else is done to it, and nothing at all in a run
-- without a scheduler.
pub call_all-effects :
    (scheduled : Bool) (cs : List Call)
    → call_all cs (record { scheduled = scheduled; started = false; stopped = false })
      ≡ (if scheduled then launch_at_begin cs else [])
unfolding call_all
call_all-effects false cs = call_all-unscheduled cs
call_all-effects true [] = refl
call_all-effects true (begin_call ∷ cs) = ground (arith, call_all-started cs)
call_all-effects true (stop_call ∷ cs) = call_all-effects true cs
