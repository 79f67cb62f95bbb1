-- ===== src/Runner/Means.antt =====
-- What the report of a run says of its operations.
use proofload_sh.Prelude.{◌*◌, ◌/◌, ◌≤◌, ◌<◌, ◌≡◌, arith, true, List, [], ◌∷◌, ℤ, pos}
use proofload_sh.Machine.{two63, div64-pos, mul64-pos}
use proofload_sh.Runner.{Sample, Options, RunReport, start, observe_all, report}
use proofload_sh.Runner.Tallies.{
  sum_measured, one, error_of, records_of, late_of, service_of, FitsRun, run-Holds,
}

errors_le :
    (warmup_end : ℤ) (ss : List Sample)
    → sum_measured error_of warmup_end ss ≤ sum_measured one warmup_end ss
errors_le warmup_end [] = omega arith
errors_le warmup_end (s ∷ ss) = ground (arith, errors_le warmup_end ss)

module _ (now warmup_end : ℤ) (o : Options) (ss : List Sample) (fits : FitsRun warmup_end ss) where
  abbrev final : RunReport
  final = report now warmup_end o (observe_all warmup_end ss start)

  -- If an operation was measured and no counter overflows, the report counts the operations of the measure
  -- phase, those of them that failed and the records that the others touched, and its means are the floors of the mean
  -- lateness and of the mean service time, negative values taken as 0.
  pub report_means :
      0 < sum_measured one warmup_end ss
      → (final.total ≡ pos (sum_measured one warmup_end ss))
        × (final.errors ≡ pos (sum_measured error_of warmup_end ss))
        × (final.records ≡ pos (sum_measured records_of warmup_end ss))
        × (final.mean_lateness
            ≡ pos (sum_measured late_of warmup_end ss / sum_measured one warmup_end ss))
        × (final.mean_service
            ≡ pos (sum_measured service_of warmup_end ss / sum_measured one warmup_end ss))
  unfolding report
  report_means some_op =
      let h = run-Holds warmup_end ss fits in
      (
        ground (arith, h.total),
        ground (arith, h.errors),
        ground (arith, h.records),
        ground (
          arith,
          h.total,
          h.lateness,
          fits.lateness,
          div64-pos (sum_measured late_of warmup_end ss) (sum_measured one warmup_end ss),
        ),
        ground (
          arith,
          h.total,
          h.service,
          fits.service,
          div64-pos (sum_measured service_of warmup_end ss) (sum_measured one warmup_end ss),
        ),
      )

  -- A run that is flagged client-bound, with fewer than 2^63 / 20 operations and no overflow, measured an
  -- operation, had less than one failure in twenty, and was later on average than an operation took.
  pub client_bound_lem :
      sum_measured one warmup_end ss * 20 < two63
      → final.client_bound ≡ true
      → (0 < sum_measured one warmup_end ss)
        × (sum_measured error_of warmup_end ss * 20 < sum_measured one warmup_end ss)
        × (sum_measured service_of warmup_end ss / sum_measured one warmup_end ss
            < sum_measured late_of warmup_end ss / sum_measured one warmup_end ss)
  unfolding report
  client_bound_lem few h =
      let held = run-Holds warmup_end ss fits in
      let fewer = errors_le warmup_end ss in
      let n = sum_measured one warmup_end ss in
      let late = div64-pos (sum_measured late_of warmup_end ss) n in
      let service = div64-pos (sum_measured service_of warmup_end ss) n in
      let product = mul64-pos (sum_measured error_of warmup_end ss) 20 in
      (
        ground (arith, held.total, h),
        ground (arith, held.total, held.errors, h, fewer, product),
        ground (
          arith, held.total, held.lateness, held.service, fits.lateness, fits.service, h, late,
          service,
        ),
      )
