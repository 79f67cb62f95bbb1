-- ===== src/Cli/Distributed/Merge.antt =====
-- The merge of what the workers submit loses nothing.
use proofload_sh.Prelude.{
  ℕ, suc, ◌+◌, ◌<◌, ◌≡◌, refl, ap, sym, ◌∙◌, arith, Bool, false, ◌||◌, Option, some, List, [], ◌∷◌,
  ℤ, pos, pos_part, All,
}
use proofload_sh.Machine.{two63, add64, add64-pos}
use proofload_sh.Cluster.{WorkerReport, Blob, Outcome}
use proofload_sh.Runner.{RunReport}
use proofload_sh.Metrics.{Histograms, CountLaws, Recorder, Envelope, encode, merge, snapshot}
use proofload_sh.Metrics.Sinks.{Sound, Sound-same, merge-high, merge-Sound}
use proofload_sh.Metrics.Totals.{snapshot-Sound}
use proofload_sh.Metrics.Codec.{CodecLaws, decode-encode}
use proofload_sh.Cli.Distributed.{
  sum_reports, no_report, Merging, merged, decode_blob, merge_rest, merge_blobs, merge_results,
}

abbrev pub all_total : List WorkerReport → ℕ
all_total [] = 0
all_total (w ∷ ws) = pos_part w.total + all_total ws

abbrev pub some_bound : List WorkerReport → Bool
some_bound [] = false
some_bound (w ∷ ws) = w.client_bound || some_bound ws

-- A report whose total is not negative.
abbrev pub IsCount : WorkerReport → Type 0
IsCount w = w.total ≡ pos (pos_part w.total)

sum_reports-totals :
    (ws : List WorkerReport) (rep : RunReport) (n : ℕ)
    → rep.total ≡ pos n
    → All IsCount ws
    → n + all_total ws < two63
    → ((sum_reports ws rep).total ≡ pos (n + all_total ws))
      × ((sum_reports ws rep).client_bound ≡ (rep.client_bound || some_bound ws))
unfolding sum_reports
sum_reports-totals [] rep n e a b = (e ∙ ap pos (omega arith), ground arith)
sum_reports-totals (w ∷ ws) rep n e a b =
    let next : RunReport = record rep {
      total = add64 rep.total w.total;
      errors = add64 rep.errors w.errors;
      client_bound = rep.client_bound || w.client_bound;
    } in
    let rest =
      sum_reports-totals ws next (n + pos_part w.total)
        (ground (arith, e, a.0, add64-pos n (pos_part w.total))) a.1 (omega (arith, b)) in
    (rest.0 ∙ ap pos (omega arith), ground (arith, rest.1))

module _ (lib : Histograms) (laws : CountLaws lib) (codec : CodecLaws lib)
    (envelope_of : Blob → Option Envelope) where
  open lib use {Hist}

  -- Blobs that workers made of recorders of one range, with the sums of their operations and errors.
  pub data Sent (high : ℤ) : List Blob → ℕ → ℕ → Type 0 where
    nothing : Sent high [] 0 0
    one :
        (b : Blob) (r : Recorder Hist) (env : Envelope) (n e : ℕ)
        → Sound lib laws r n e
        → r.high ≡ high
        → encode lib r ≡ some env
        → envelope_of b ≡ some env
        → {bs : List Blob} {n' e' : ℕ} → Sent high bs n' e'
        → Sent high (b ∷ bs) (n + n') (e + e')

  decoded :
      (b : Blob) (r : Recorder Hist) (env : Envelope) (n e : ℕ)
      → Sound lib laws r n e
      → e < two63
      → encode lib r ≡ some env
      → envelope_of b ≡ some env
      → (q : Recorder Hist) × (decode_blob lib envelope_of b ≡ some q)
        × (q.high ≡ r.high)
        × Sound lib laws q n e
  unfolding decode_blob
  decoded b r env n e s few made read =
      let (q, back, range, sound) = decode-encode lib laws codec r n e env s few made in
      (q, ground (arith, read, back), range, sound)

  -- What a merge of everything is.
  pub record Whole (m : Merging Hist) (rep : RunReport) (n e : ℕ) : Type 0 where
    pub recorder : Recorder Hist
    pub done : m ≡ merged recorder rep
    pub sound : Sound lib laws recorder n e

  merge_rest-Whole :
      (high : ℤ) (i : ℕ) (bs : List Blob) (rep : RunReport) (r : Recorder Hist) (n e n' e' : ℕ)
      → Sound lib laws r n e
      → r.high ≡ high
      → Sent high bs n' e'
      → e + e' < two63
      → Whole (merge_rest lib envelope_of i bs rep r) rep (n + n') (e + e')
  unfolding merge_rest
  merge_rest-Whole high i [] rep r n e _ _ s h nothing b = record {
    recorder = r;
    done = refl;
    sound = Sound-same lib laws r n (n + 0) e (e + 0) s (omega arith) (omega arith);
  }
  merge_rest-Whole high i _ rep r n e _ _ s h (one b p env m f sp hp made read {bs} {n'} {e'} sent)
        few =
      let (q, back, range, sound) = decoded b p env m f sp (omega (arith, few)) made read in
      let both =
        merge-Sound lib laws r q n e m f s sound (h ∙ sym (range ∙ hp)) (omega (arith, few)) in
      let rest =
        merge_rest-Whole high (suc i) bs rep (merge lib r q) (n + m) (e + f) n' e' both
          (merge-high lib laws r q ∙ h) sent (omega (arith, few)) in
      record {
        recorder = rest.recorder;
        done = ground (arith, back, rest.done);
        sound =
            Sound-same lib laws rest.recorder (n + m + n') (n + (m + n')) (e + f + e')
              (e + (f + e')) rest.sound (omega arith) (omega arith);
      }

  merge_blobs-Whole :
      (high : ℤ) (b : Blob) (bs : List Blob) (rep : RunReport) (n e : ℕ)
      → Sent high (b ∷ bs) n e
      → e < two63
      → Whole (merge_blobs lib envelope_of (b ∷ bs) rep) rep n e
  unfolding merge_blobs
  merge_blobs-Whole high _ _ rep _ _ (one b p env m f sp hp made read {bs} {n'} {e'} sent) few =
      let (q, back, range, sound) = decoded b p env m f sp (omega (arith, few)) made read in
      let rest = merge_rest-Whole high 1 bs rep q m f n' e' sound (range ∙ hp) sent few in
      record {
        recorder = rest.recorder;
        done = ground (arith, back, rest.done);
        sound = rest.sound;
      }

  -- With a histogram library that counts and encodes as documented: for the histograms that one or more workers
  -- encoded over one range of latencies, with fewer than 2^63 errors and reported totals in sum, the merge
  -- succeeds, a phase of the merged recorder has the sum of the workers' operations and the sum of their
  -- errors, and the merged report has the sum of the reported totals and is client-bound exactly when the
  -- report of some worker is.
  pub merge_results-total :
      (o : Outcome) (high duration : ℤ) (b : Blob) (bs : List Blob) (n e : ℕ)
      → o.histograms ≡ b ∷ bs
      → Sent high (b ∷ bs) n e
      → e < two63
      → All IsCount o.reports
      → all_total o.reports < two63
      → (r : Recorder Hist) × (rep : RunReport) × (merge_results lib envelope_of o ≡ merged r rep)
        × ((snapshot lib duration r).total ≡ pos n)
        × ((snapshot lib duration r).errors ≡ pos e)
        × (rep.total ≡ pos (all_total o.reports))
        × (rep.client_bound ≡ some_bound o.reports)
  unfolding merge_results
  merge_results-total o high duration b bs n e has sent few counts small =
      let rep = sum_reports o.reports no_report in
      let whole = merge_blobs-Whole high b bs rep n e sent few in
      let sums = sum_reports-totals o.reports no_report 0 refl counts (omega (arith, small)) in
      let phase = snapshot-Sound lib laws duration whole.recorder n e whole.sound few in
      (
        whole.recorder,
        rep,
        ap (λ (bs : List Blob). merge_blobs lib envelope_of bs rep) has ∙ whole.done,
        phase.0,
        phase.1,
        sums.0 ∙ ap pos (omega arith),
        sums.1,
      )
