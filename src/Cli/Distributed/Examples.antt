-- ===== src/Cli/Distributed/Examples.antt =====
-- The theorems on a distributed run: five workers at a rate of 12, and one worker that submits one operation.
use proofload_sh.Prelude.{ℕ, ◌+◌, ◌*◌, ◌≤◌, ◌<◌, ◌≡◌, ◌↔◌, refl, arith, true, some, [], ◌∷◌, ℤ, pos}
use proofload_sh.Schedule.{fixed, new_open_loop, closed_loop}
use proofload_sh.Cluster.{RunSpec, Outcome}
use proofload_sh.Runner.{RunReport}
use proofload_sh.Metrics.{Recorder, default_max_latency, snapshot}
use proofload_sh.Metrics.Examples.{
  counter, counter-CountLaws, counter-CodecLaws, one_recorder, one_envelope, encode-one_recorder,
  one_recorder-Sound,
}
use proofload_sh.Cli.Distributed.{worker_rate, merge_results, merged}
use proofload_sh.Cli.Distributed.Rates.{worker_rate-share}
use proofload_sh.Cli.Distributed.Merge.{
  Sent, nothing, one, all_total, some_bound, merge_results-total,
}

abbrev spec : RunSpec
spec = record {
  target = "db";
  workload = "mixed";
  endpoints = [];
  consistency = "";
  connections = pos 4;
  warmup = pos 0;
  duration = pos 10;
  rate_ops_per_sec = pos 12;
  seed = pos 42;
  worker_count = pos 5;
}

worker_rate-share_example :
    (share : ℕ) × (worker_rate spec ≡ some (record { mode = fixed; ops_per_sec = pos share }))
    × (5 * share ≤ 12)
    × (12 < 5 * share + 5)
    × ((new_open_loop (pos 0) (record { mode = fixed; ops_per_sec = pos share }) ≡ closed_loop)
        ↔ (11 < 4))
worker_rate-share_example = worker_rate-share spec 11 4 (pos 0) refl refl (omega arith)

abbrev outcome : Outcome
outcome = record {
  reports = record { worker_id = pos 0; total = pos 1; errors = pos 0; client_bound = true } ∷ [];
  histograms = (1 ∷ []) ∷ [];
}

sent :
    Sent counter counter-CountLaws counter-CodecLaws
      (λ b. some one_envelope)
      default_max_latency
      ((1 ∷ []) ∷ [])
      1
      0
sent =
    one (1 ∷ []) one_recorder one_envelope 1 0 one_recorder-Sound refl encode-one_recorder refl
      nothing

merge_results-total_example :
    (r : Recorder (ℤ × ℕ)) × (rep : RunReport) × (merge_results counter
        (λ b. some one_envelope)
        outcome
      ≡ merged r rep)
    × ((snapshot counter (pos 9) r).total ≡ pos 1)
    × ((snapshot counter (pos 9) r).errors ≡ pos 0)
    × (rep.total ≡ pos (all_total outcome.reports))
    × (rep.client_bound ≡ some_bound outcome.reports)
merge_results-total_example =
    merge_results-total counter counter-CountLaws counter-CodecLaws (λ b. some one_envelope) outcome
      default_max_latency (pos 9) (1 ∷ []) [] 1 0 refl sent (omega arith) (refl, tt) (omega arith)
