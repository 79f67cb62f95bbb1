-- ===== src/Runner/Examples.antt =====
-- The theorems on the runner for small runs.
use proofload_sh.Prelude.{
  not, ◌&&◌, ◌/◌, ◌≡◌, refl, arith, true, false, List, [], ◌∷◌, pos, is_some, ◌-ℤ◌,
}
use proofload_sh.Machine.{add64, sub64, mul64, div64, wrap}
use proofload_sh.Runner.{
  Sample, Options, start, between, observe, observe_all, report, measure_elapsed,
  mean_inter_arrival, connect_all, validate, run,
}
use proofload_sh.Runner.Connections.{opens, closes, run-closes}
use proofload_sh.Runner.Tallies.{
  FitsRun, sum_measured, one, error_of, records_of, late_of, service_of,
}
use proofload_sh.Runner.Means.{report_means}

abbrev one_second : Options
one_second = record {
  connections = pos 1;
  warmup = pos 0;
  duration = pos 1000000000;
  lateness_threshold = pos 10;
}

-- The one connection cannot be prepared.
run-closes_example :
    let r =
      run
        (λ i. true)
        (λ i. false)
        (pos 9)
        (pos 0)
        (record { has_driver = true; has_sched = true; has_gen = true })
        one_second
        []
        false in
    (opens 0 r.trace ≡ closes 0 r.trace)
    × (is_some r.report ≡ (
        not (
          is_some
            (validate (record { has_driver = true; has_sched = true; has_gen = true }) one_second))
        && not (is_some (connect_all (λ i. true) (λ i. false) 1).error)))
run-closes_example =
    run-closes (λ i. true) (λ i. false) (pos 9) (pos 0)
      (record { has_driver = true; has_sched = true; has_gen = true }) one_second [] false 0

-- An operation of the warm-up, and one that is dispatched 1000 ns late and takes 10 ns.
abbrev two_samples : List Sample
two_samples =
    record { intended = pos 0; dispatch = pos 1; done = pos 2; failed = true; rows = pos 0 }
    ∷ record {
      intended = pos 500;
      dispatch = pos 1500;
      done = pos 1510;
      failed = false;
      rows = pos 3;
    }
    ∷ []

two_samples-FitsRun : FitsRun (pos 100) two_samples
unfolding between ◌-ℤ◌
two_samples-FitsRun = record {
  total = omega arith;
  errors = omega arith;
  records = omega arith;
  lateness = omega arith;
  service = omega arith;
}

report_means_example :
    let r = report (pos 2000) (pos 100) one_second (observe_all (pos 100) two_samples start) in
    (r.total ≡ pos (sum_measured one (pos 100) two_samples))
    × (r.errors ≡ pos (sum_measured error_of (pos 100) two_samples))
    × (r.records ≡ pos (sum_measured records_of (pos 100) two_samples))
    × (r.mean_lateness
        ≡ pos (sum_measured late_of (pos 100) two_samples / sum_measured one (pos 100) two_samples))
    × (r.mean_service
        ≡ pos (
            sum_measured service_of (pos 100) two_samples / sum_measured one (pos 100) two_samples))
report_means_example =
    report_means (pos 2000) (pos 100) one_second two_samples two_samples-FitsRun (omega arith)

late_run :
    (report (pos 2000) (pos 100) one_second (observe_all (pos 100) two_samples start)).client_bound
    ≡ true
unfolding report observe_all observe between ◌-ℤ◌ add64 sub64 mul64 div64 wrap measure_elapsed
    mean_inter_arrival
late_run = refl
