-- ===== src/Cli/Distributed.antt =====
-- core/cli/distributed.go: what a worker is told to run, and the merge of what the workers submit. The base64 and
-- JSON text of a submitted histogram is an argument that reads its envelope.
pub mod Rates
pub mod Merge
pub mod Examples
use proofload_sh.Prelude.{
  ℕ, suc, Bool, true, false, not, ◌||◌, Option, none, some, List, [], ◌∷◌, ◌++◌, if◌then◌else◌, ℤ,
  pos, leb_ℤ, String, ◌==◌, string_eq, Dict, insert, ◌>>=◌,
}
use proofload_sh.Machine.{add64, div64}
use proofload_sh.Schedule.{RateSpec, fixed}
use proofload_sh.Cluster.{RunSpec, WorkerReport, Blob, Outcome}
use proofload_sh.Runner.{RunReport}
use proofload_sh.Metrics.{Histograms, Recorder, Envelope, decode, merge}
use proofload_sh.Config.Resolve.{Value, number, text, texts, is_empty}

-- `workerRate`: `none` is the zero rate.
pub worker_rate : RunSpec → Option RateSpec
worker_rate spec =
    if leb_ℤ spec.rate_ops_per_sec (pos 0) || leb_ℤ spec.worker_count (pos 0)
    then none
    else some (record { mode = fixed; ops_per_sec = div64 spec.rate_ops_per_sec spec.worker_count })

-- `workerOverrides`
pub worker_overrides : RunSpec → Dict String Value
worker_overrides spec =
    ("connections", number spec.connections)
    ∷ ("duration", number spec.duration)
    ∷ ("warmup", number spec.warmup)
    ∷ ((if is_empty spec.endpoints then [] else ("endpoints", texts spec.endpoints) ∷ [])
        ++ (if spec.consistency == "" then [] else ("consistency", text spec.consistency) ∷ []))

-- The loop of `mergeResults` over the reports.
abbrev pub no_report : RunReport
no_report = record {
  total = pos 0;
  errors = pos 0;
  records = pos 0;
  client_bound = false;
  mean_lateness = pos 0;
  mean_service = pos 0;
  duration = pos 0;
}

pub sum_reports : List WorkerReport → RunReport → RunReport
sum_reports [] rep = rep
sum_reports (w ∷ ws) rep = sum_reports ws (record rep {
  total = add64 rep.total w.total;
  errors = add64 rep.errors w.errors;
  client_bound = rep.client_bound || w.client_bound;
})

-- The errors of `mergeResults`: no results, or the worker whose histogram is not decoded.
pub data Failure : Type 0 where
  no_results : Failure
  undecoded : ℕ → Failure

pub data Merging (H : Type 0) : Type 0 where
  merged : Recorder H → RunReport → Merging H
  failed : Failure → Merging H

module _ (lib : Histograms) (envelope_of : Blob → Option Envelope) where
  open lib use {Hist}

  -- metrics.Decode, with the text of the envelope.
  pub decode_blob : Blob → Option (Recorder Hist)
  decode_blob b = (envelope_of b >>= λ (env : Envelope). decode lib env)

  -- The loop over the histograms from worker i on.
  pub merge_rest : ℕ → List Blob → RunReport → Recorder Hist → Merging Hist
  unfolding decode_blob
  merge_rest i [] rep r = merged r rep
  merge_rest i (b ∷ bs) rep r = elim (decode_blob b) [
    | none ↦ failed (undecoded i)
    | some q ↦ merge_rest (suc i) bs rep (merge lib r q)
  ]

  merge_blobs : List Blob → RunReport → Merging Hist
  unfolding merge_rest
  merge_blobs [] rep = failed no_results
  merge_blobs (b ∷ bs) rep = elim (decode_blob b) [
    | none ↦ failed (undecoded 0)
    | some r ↦ merge_rest 1 bs rep r
  ]

  -- `mergeResults`
  pub merge_results : Outcome → Merging Hist
  unfolding merge_blobs sum_reports
  merge_results o = merge_blobs o.histograms (sum_reports o.reports no_report)
