-- ===== src/Cluster/Examples.antt =====
-- The theorems on the coordinator for a run with two workers.
use proofload_sh.Prelude.{
  ℕ, ◌<◌, ◌≡◌, ◌≢◌, refl, arith, true, false, List, [], ◌∷◌, some, ℤ, pos, negsuc, codes, is_some,
  length, get_elem?, lookup, insert, int_eq, ◌+ℤ◌,
}
use proofload_sh.Cluster.{
  RunSpec, Coordinator, new_coordinator, register, handle_join, handle_submit, poll_join, joined_as,
  has_joined, result, assign, enter, open_barrier, start_lead_of, lowest_free, record_submit,
  open_completion, trim_slashes,
}
use proofload_sh.Cluster.Barrier.{IsValid, new_coordinator-IsValid}
use proofload_sh.Cluster.Requests.{Request, join, submit, step, run, run-IsValid}
use proofload_sh.Cluster.Complete.{same_start, register_distinct, result_complete}

abbrev two_workers : RunSpec
two_workers = record {
  target = "kafka";
  workload = "mixed";
  endpoints = [];
  consistency = "";
  connections = pos 1;
  warmup = pos 0;
  duration = pos 1000;
  rate_ops_per_sec = pos 0;
  seed = pos 7;
  worker_count = pos 2;
}

abbrev start : Coordinator
start = new_coordinator two_workers (pos 2)

start-IsValid : IsValid 2 start
start-IsValid = new_coordinator-IsValid two_workers 2 (omega arith)

-- The second worker asks for the slot that the first one got.
abbrev both_join : List Request
both_join = join (pos 10) true (some (negsuc 0)) ∷ join (pos 20) true (some (pos 0)) ∷ []

abbrev submit_of : ℤ → Request
submit_of id = submit true (
    some (record {
      report = record { worker_id = id; total = pos 5; errors = pos 0; client_bound = false };
      histogram = [];
    }))

abbrev all_requests : List Request
all_requests =
    join (pos 10) true (some (negsuc 0))
    ∷ join (pos 20) true (some (pos 0))
    ∷ submit_of (pos 1)
    ∷ submit_of (pos 0)
    ∷ []

run-IsValid_example : IsValid 2 (run all_requests start)
run-IsValid_example = run-IsValid 2 all_requests start start-IsValid

started :
    poll_join false (pos 0) (run both_join start)
    ≡ some (joined_as (pos 0) two_workers (some (pos 500000020)))
unfolding run step poll_join new_coordinator register assign enter open_barrier start_lead_of
    lowest_free handle_join handle_submit record_submit open_completion lookup insert ◌+ℤ◌
started = refl

started_again :
    poll_join false (pos 1) (run (submit_of (pos 1) ∷ []) (run both_join start))
    ≡ some (joined_as (pos 1) two_workers (some (pos 500000020)))
unfolding run step poll_join new_coordinator register assign enter open_barrier start_lead_of
    lowest_free handle_join handle_submit record_submit open_completion lookup insert ◌+ℤ◌
started_again = refl

same_start_example :
    (two_workers ≡ two_workers)
    × (some (pos 500000020) ≡ some (pos 500000020))
    × (is_some (some (pos 500000020)) ≡ true)
same_start_example =
    same_start 2 (run both_join start) (submit_of (pos 1) ∷ []) false false (pos 0) (pos 1)
      (run-IsValid 2 both_join start start-IsValid) started started_again

first_slot : (register (pos 10) (pos 1) start).0 ≡ some (pos 1)
unfolding run step poll_join new_coordinator register assign enter open_barrier start_lead_of
    lowest_free handle_join handle_submit record_submit open_completion lookup insert ◌+ℤ◌
first_slot = refl

second_slot :
    (register (pos 20) (pos 1) (run (submit_of (pos 1) ∷ []) (register (pos 10) (pos 1) start).1)).0
    ≡ some (pos 0)
unfolding run step poll_join new_coordinator register assign enter open_barrier start_lead_of
    lowest_free handle_join handle_submit record_submit open_completion lookup insert ◌+ℤ◌
second_slot = refl

register_distinct_example :
    ((k : ℕ) × (pos 1 ≡ pos k) × (k < 2)) × (has_joined start (pos 1) ≡ false) × (pos 1 ≢ pos 0)
register_distinct_example =
    register_distinct 2 (pos 10) (pos 1) (pos 20) (pos 1) start (submit_of (pos 1) ∷ [])
      start-IsValid first_slot second_slot

all_joined : (run both_join start).joined_all ≡ true
unfolding run step poll_join new_coordinator register assign enter open_barrier start_lead_of
    lowest_free handle_join handle_submit record_submit open_completion lookup insert ◌+ℤ◌
all_joined = refl

all_submitted : (run all_requests start).submitted_all ≡ true
unfolding run step poll_join new_coordinator register assign enter open_barrier start_lead_of
    lowest_free handle_join handle_submit record_submit open_completion lookup insert ◌+ℤ◌
all_submitted = refl

result_complete_example :
    (length (result (run all_requests start)).reports ≡ 2)
    × (get_elem? (result (run all_requests start)).reports 1
        ≡ lookup (pos 1) (run all_requests start).reports)
    × (is_some (lookup (pos 1) (run all_requests start).reports) ≡ true)
    × (get_elem? (result (run all_requests start)).histograms 1
        ≡ lookup (pos 1) (run all_requests start).histos)
result_complete_example =
    result_complete 2 (run all_requests start) 1 (run-IsValid 2 all_requests start start-IsValid)
      all_submitted (omega arith)

host_kept : trim_slashes (codes "db:80/") ≢ []
unfolding trim_slashes
host_kept h = cc
