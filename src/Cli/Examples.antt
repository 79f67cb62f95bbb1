-- ===== src/Cli/Examples.antt =====
-- The theorem on the log for a write that commits and one that fails, the one on the scheduler for a run
-- that stops twice, and the one on what a run cleans up for a load that fails.
use proofload_sh.Prelude.{
  Bool, ◌+◌, some, is_some, ◌&&◌, ◌≡◌, true, false, List, [], ◌∷◌, if◌then◌else◌, ℤ, pos, Dict,
  lookup, int_eq,
}
use proofload_sh.Nemesis.{Node, FaultSpec, bare_node}
use proofload_sh.Workload.{Operation}
use proofload_sh.Verify.Log.{WriteRecord, ok, read_log}
use proofload_sh.Verify.Log.LastWrite.{Held}
use proofload_sh.Cli.Verification.{log_lines}
use proofload_sh.Cli.Verification.Committed.{committed, read_log-committed}
use proofload_sh.Prelude.Sort.{tally}
use proofload_sh.Cli.Run.{RunFlags, Ensured, Stages, do_run}
use proofload_sh.Cli.Run.Cleanup.{
  is_launched, is_cancelled, is_made, is_cleaned, is_down, left_behind, do_run-cleanup,
}
use proofload_sh.Cli.Faults.{Call, begin_call, stop_call, call_all}
use proofload_sh.Cli.Faults.Lifecycle.{launch_at_begin, call_all-effects}

abbrev two_writes : List (Operation × Bool)
two_writes =
    (record { type = "write"; key = pos 7; value = 1 ∷ []; seq = pos 1 }, false)
    ∷ (record { type = "write"; key = pos 7; value = 2 ∷ []; seq = pos 2 }, true)
    ∷ []

read_log-committed_example :
    (d : Dict ℤ WriteRecord) × (read_log false (log_lines two_writes) ≡ ok d)
    × ((k : ℤ) → Held k (committed two_writes) (lookup k d))
read_log-committed_example = read_log-committed two_writes

abbrev calls : List Call
calls = stop_call ∷ begin_call ∷ stop_call ∷ stop_call ∷ []

call_all-effects_example :
    call_all calls (record { scheduled = true; started = false; stopped = false })
    ≡ (if true then launch_at_begin calls else [])
call_all-effects_example = call_all-effects true calls

abbrev flags : RunFlags
flags = record {
  connections = pos 8;
  duration = pos 60;
  warmup = pos 0;
  consistency = "";
  endpoints = [];
  rate = pos 0;
  provision = "compose";
  keep = false;
  workers = pos 0;
  changed = λ name. false;
}

abbrev up : Ensured
up = record { endpoints = some ("a:1" ∷ []); brought_up = true; tears_down = true }

abbrev two_nodes : List Node
two_nodes = bare_node "a" ∷ bare_node "b" ∷ []

abbrev kill_any : FaultSpec
kill_any = record {
  fault = record { fault_type = "kill-node"; target = ""; params = [] };
  start = pos 10;
  duration = pos 15;
  repeat = pos 20;
}

-- A scheduled fault is launched, and then the load fails.
abbrev load_fails : Stages
load_fails = record {
  test_type = true;
  schema = true;
  model = "register";
  ops = [];
  file_made = true;
  writer_opened = true;
  workload = true;
  wait = true;
  load = false;
  fault_flag = "faults.yaml";
  schedule = some (kill_any ∷ []);
  nodes = two_nodes;
  script_found = true;
}

do_run-cleanup_example :
    (tally is_launched (do_run flags up load_fails)
      ≡ tally is_cancelled (do_run flags up load_fails))
    × (tally is_made (do_run flags up load_fails)
        ≡ tally is_cleaned (do_run flags up load_fails)
          + (if left_behind flags up load_fails then 1 else 0))
    × (tally is_down (do_run flags up load_fails) ≡ (if true && is_some up.endpoints then 1 else 0))
do_run-cleanup_example = do_run-cleanup flags up load_fails
