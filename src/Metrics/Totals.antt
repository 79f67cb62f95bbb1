-- ===== src/Metrics/Totals.antt =====
-- A phase counts every operation that was recorded.
use proofload_sh.Prelude.{ℕ, suc, ◌≤◌, ◌<◌, ◌≡◌, refl, ap, arith, List, [], ◌∷◌, ℤ, pos, length}
use proofload_sh.Machine.{two63}
use proofload_sh.Metrics.{Histograms, CountLaws, Recorder, Options, new_recorder, snapshot}
use proofload_sh.Metrics.Sinks.{
  Action, add, put, recorded, failures, run, Sound, run-Sound, collect-totals,
}

module _ (lib : Histograms) (laws : CountLaws lib) where
  open lib use {Hist}

  new_recorder-Sound : (o : Options) → Sound lib laws (new_recorder Hist o) 0 0
  unfolding new_recorder
  new_recorder-Sound o = record { range = ground arith; sinks = tt; total = refl; failed = refl }

  unfoldable pub reached : Options → List Action → Recorder Hist
  unfolding run
  reached o acts = run lib laws acts (new_recorder Hist o)

  reached-Sound :
      (o : Options) (acts : List Action)
      → length acts < two63
      → Sound lib laws (reached o acts) (recorded 0 acts) (failures 0 acts)
  unfolding reached new_recorder
  reached-Sound o acts b =
      let s =
        run-Sound lib laws acts (new_recorder Hist o) 0 0 0 (new_recorder-Sound o) refl
          (omega arith) in
      record {
        range = s.range;
        sinks = s.sinks;
        total = omega (arith, s.total);
        failed = omega (arith, s.failed);
      }

  pub snapshot-Sound :
      (duration : ℤ) (r : Recorder Hist) (n e : ℕ)
      → Sound lib laws r n e
      → e < two63
      → ((snapshot lib duration r).total ≡ pos n) × ((snapshot lib duration r).errors ≡ pos e)
  unfolding snapshot
  snapshot-Sound duration r n e s b = let c = collect-totals lib laws r n e s b in (ap pos c.1, c.2)

  failures_le : (sinks : ℕ) (acts : List Action) → failures sinks acts ≤ length acts
  failures_le sinks [] = omega arith
  failures_le sinks (add ∷ acts) = omega (arith, failures_le (suc sinks) acts)
  failures_le sinks (put i op latency is_err ∷ acts) = ground (arith, failures_le sinks acts)

  -- With a histogram library that counts as documented: after any fewer than 2^63 registrations of sinks and
  -- records into them, in any order, a phase of the recorder has as its total the records that went to a sink there was,
  -- whatever their latencies, and as its errors those of them that failed.
  pub snapshot-reached :
      (o : Options) (acts : List Action) (duration : ℤ)
      → length acts < two63
      → ((snapshot lib duration (reached o acts)).total ≡ pos (recorded 0 acts))
        × ((snapshot lib duration (reached o acts)).errors ≡ pos (failures 0 acts))
  snapshot-reached o acts duration b =
      snapshot-Sound duration (reached o acts) (recorded 0 acts) (failures 0 acts)
        (reached-Sound o acts b) (omega (arith, failures_le 0 acts))
