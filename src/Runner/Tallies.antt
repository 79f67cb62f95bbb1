-- ===== src/Runner/Tallies.antt =====
-- The counters of a run are sums over the operations that it measures, whatever their order.
use proofload_sh.Prelude.{
  ℕ, ◌+◌, ◌<◌, ◌≡◌, refl, ap, ◌∙◌, arith, Bool, not, List, [], ◌∷◌, if◌then◌else◌, ℤ, pos, pos_part,
  ltb_ℤ, ltb,
}
use proofload_sh.Machine.{two63, add64-pos}
use proofload_sh.Runner.{Sample, Accumulator, start, between, observe, observe_all}

-- The operation was dispatched in the measure phase.
abbrev pub is_measured : ℤ → Sample → Bool
is_measured warmup_end s = not (ltb_ℤ s.dispatch warmup_end)

-- What an operation adds to each counter.
abbrev pub error_of : Sample → ℕ
error_of s = if s.failed then 1 else 0

abbrev pub records_of : Sample → ℕ
records_of s = if s.failed then 0 else (if ltb 0 (pos_part s.rows) then pos_part s.rows else 1)

abbrev pub late_of : Sample → ℕ
late_of s = pos_part (between s.dispatch s.intended)

abbrev pub service_of : Sample → ℕ
service_of s = pos_part (between s.done s.dispatch)

-- The sum over the measured operations.
abbrev pub sum_measured : (Sample → ℕ) → ℤ → List Sample → ℕ
sum_measured f warmup_end [] = 0
sum_measured f warmup_end (s ∷ ss) =
    (if is_measured warmup_end s then f s else 0) + sum_measured f warmup_end ss

abbrev pub one : Sample → ℕ
one s = 1

-- An accumulator that holds these sums.
pub record Holds (a : Accumulator) (t e r l v : ℕ) : Type 0 where
  pub total : a.total ≡ pos t
  pub errors : a.errors ≡ pos e
  pub records : a.records ≡ pos r
  pub lateness : a.lateness_sum ≡ pos l
  pub service : a.service_sum ≡ pos v

module _ (warmup_end : ℤ) where
  -- The sums over operations, with no counter out of range.
  pub record Fits (t e r l v : ℕ) (ss : List Sample) : Type 0 where
    pub total : t + sum_measured one warmup_end ss < two63
    pub errors : e + sum_measured error_of warmup_end ss < two63
    pub records : r + sum_measured records_of warmup_end ss < two63
    pub lateness : l + sum_measured late_of warmup_end ss < two63
    pub service : v + sum_measured service_of warmup_end ss < two63

  observe-Holds :
      (s : Sample) (a : Accumulator) (t e r l v : ℕ)
      → Holds a t e r l v
      → Fits t e r l v (s ∷ [])
      → Holds
          (observe warmup_end s a)
          (t + sum_measured one warmup_end (s ∷ []))
          (e + sum_measured error_of warmup_end (s ∷ []))
          (r + sum_measured records_of warmup_end (s ∷ []))
          (l + sum_measured late_of warmup_end (s ∷ []))
          (v + sum_measured service_of warmup_end (s ∷ []))
  unfolding observe
  observe-Holds s a t e r l v h f = record {
    total = ground (arith, h.total, f.total, add64-pos t 1);
    errors = ground (arith, h.errors, f.errors, add64-pos e 1);
    records = ground (arith, h.records, f.records, add64-pos r 1, add64-pos r (pos_part s.rows));
    lateness = ground (arith, h.lateness, f.lateness, add64-pos l (late_of s), add64-pos l 0);
    service = ground (arith, h.service, f.service, add64-pos v (service_of s));
  }

  observe_all-Holds :
      (ss : List Sample) (a : Accumulator) (t e r l v : ℕ)
      → Holds a t e r l v
      → Fits t e r l v ss
      → Holds
          (observe_all warmup_end ss a)
          (t + sum_measured one warmup_end ss)
          (e + sum_measured error_of warmup_end ss)
          (r + sum_measured records_of warmup_end ss)
          (l + sum_measured late_of warmup_end ss)
          (v + sum_measured service_of warmup_end ss)
  unfolding observe_all
  observe_all-Holds [] a t e r l v h f = record {
    total = h.total ∙ ap pos (omega arith);
    errors = h.errors ∙ ap pos (omega arith);
    records = h.records ∙ ap pos (omega arith);
    lateness = h.lateness ∙ ap pos (omega arith);
    service = h.service ∙ ap pos (omega arith);
  }
  observe_all-Holds (s ∷ ss) a t e r l v h f =
      let one_more : List Sample = s ∷ [] in
      let step = observe-Holds s a t e r l v h (record {
        total = omega (arith, f.total);
        errors = omega (arith, f.errors);
        records = omega (arith, f.records);
        lateness = omega (arith, f.lateness);
        service = omega (arith, f.service);
      }) in
      let rest =
        observe_all-Holds ss (observe warmup_end s a) (t + sum_measured one warmup_end one_more)
          (e + sum_measured error_of warmup_end one_more)
          (r + sum_measured records_of warmup_end one_more)
          (l + sum_measured late_of warmup_end one_more)
          (v + sum_measured service_of warmup_end one_more) step
          (record {
            total = omega (arith, f.total);
            errors = omega (arith, f.errors);
            records = omega (arith, f.records);
            lateness = omega (arith, f.lateness);
            service = omega (arith, f.service);
          }) in
      record {
        total = rest.total ∙ ap pos (omega arith);
        errors = rest.errors ∙ ap pos (omega arith);
        records = rest.records ∙ ap pos (omega arith);
        lateness = rest.lateness ∙ ap pos (omega arith);
        service = rest.service ∙ ap pos (omega arith);
      }

  -- No counter of a run over these operations leaves an int64.
  abbrev pub FitsRun : List Sample → Type 0
  FitsRun = Fits 0 0 0 0 0

  -- The counters of a whole run.
  pub run-Holds :
      (ss : List Sample)
      → FitsRun ss
      → Holds
          (observe_all warmup_end ss start)
          (sum_measured one warmup_end ss)
          (sum_measured error_of warmup_end ss)
          (sum_measured records_of warmup_end ss)
          (sum_measured late_of warmup_end ss)
          (sum_measured service_of warmup_end ss)
  run-Holds ss f =
      let h =
        observe_all-Holds ss start 0 0 0 0 0
          (record { total = refl; errors = refl; records = refl; lateness = refl; service = refl })
          f in
      record {
        total = h.total ∙ ap pos (omega arith);
        errors = h.errors ∙ ap pos (omega arith);
        records = h.records ∙ ap pos (omega arith);
        lateness = h.lateness ∙ ap pos (omega arith);
        service = h.service ∙ ap pos (omega arith);
      }
