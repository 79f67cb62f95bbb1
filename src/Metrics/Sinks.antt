-- ===== src/Metrics/Sinks.antt =====
-- The sinks of a recorder: what a record adds, and what an aggregate of them counts.
use proofload_sh.Prelude.{
  ℕ, zero, suc, ◌+◌, ◌<◌, ◌≡◌, refl, ap, sym, ◌∙◌, arith, Bool, List, [], ◌∷◌, ◌++◌, All,
  All-append, if◌then◌else◌, ℤ, pos, pos_part, ◌≤ℤ◌, ltb, String, length, length-append,
}
use proofload_sh.Machine.{two63, add64, add64-pos}
use proofload_sh.Metrics.{
  Histograms, CountLaws, Local, Recorder, Merged, new_local, record_op, add_local, clamp, collect,
  collect_locals, merge_ops, merge_errors, merge,
}

clamp_bounds : (high ns : ℤ) → pos 0 ≤ℤ high → (pos 0 ≤ℤ clamp high ns) × (clamp high ns ≤ℤ high)
clamp_bounds high ns h = (ground arith, ground arith)

-- What is done to a recorder: a new sink, or a record of an operation into sink i.
pub data Action : Type 0 where
  add : Action
  put : (i : ℕ) → String → ℤ → (is_err : Bool) → Action

-- The records that go to one of the sinks there are, and those of them that failed.
abbrev pub recorded : ℕ → List Action → ℕ
recorded sinks [] = 0
recorded sinks (add ∷ acts) = recorded (suc sinks) acts
recorded sinks (put i op latency is_err ∷ acts) =
    (if ltb i sinks then 1 else 0) + recorded sinks acts

abbrev pub failures : ℕ → List Action → ℕ
failures sinks [] = 0
failures sinks (add ∷ acts) = failures (suc sinks) acts
failures sinks (put i op latency is_err ∷ acts) =
    (if ltb i sinks then (if is_err then 1 else 0) else 0) + failures sinks acts

module _ (lib : Histograms) (laws : CountLaws lib) where
  open lib use {Hist, new_hist, total_count, export}

  unfoldable pub put_at : ℕ → String → ℤ → Bool → List (Local Hist) → List (Local Hist)
  put_at i op latency is_err [] = []
  put_at zero op latency is_err (l ∷ ls) = record_op lib op latency is_err l ∷ ls
  put_at (suc i) op latency is_err (l ∷ ls) = l ∷ put_at i op latency is_err ls

  unfoldable pub step : Action → Recorder Hist → Recorder Hist
  unfolding put_at
  step add r = add_local lib r
  step (put i op latency is_err) r = record r { locals = put_at i op latency is_err r.locals }

  unfoldable pub run : List Action → Recorder Hist → Recorder Hist
  unfolding step
  run [] r = r
  run (a ∷ acts) r = run acts (step a r)

  -- A sink of the recorder's range, with its counter of errors in place.
  abbrev pub IsSink : ℤ → Local Hist → Type 0
  IsSink high l =
      (l.high ≡ high)
      × ((export l.overall).highest ≡ high)
      × (l.err_total ≡ pos (pos_part l.err_total))

  abbrev pub counts : List (Local Hist) → ℕ
  counts [] = 0
  counts (l ∷ ls) = total_count l.overall + counts ls

  abbrev pub errors : List (Local Hist) → ℕ
  errors [] = 0
  errors (l ∷ ls) = pos_part l.err_total + errors ls

  pub record Sound (r : Recorder Hist) (n e : ℕ) : Type 0 where
    pub range : pos 0 ≤ℤ r.high
    pub sinks : All (IsSink r.high) r.locals
    pub total : counts r.locals ≡ n
    pub failed : errors r.locals ≡ e

  record_op-IsSink :
      (high : ℤ) (op : String) (latency : ℤ) (is_err : Bool) (l : Local Hist)
      → pos 0 ≤ℤ high
      → IsSink high l
      → pos_part l.err_total + 1 < two63
      → IsSink high (record_op lib op latency is_err l)
        × (total_count (record_op lib op latency is_err l).overall ≡ suc (total_count l.overall))
        × (pos_part (record_op lib op latency is_err l).err_total
            ≡ (if is_err then 1 else 0) + pos_part l.err_total)
  unfolding record_op
  record_op-IsSink high op latency is_err l h s b =
      let c = clamp_bounds l.high latency in
      let more = add64-pos (pos_part l.err_total) 1 b in
      (
        (
          s.0,
          laws.record_highest (clamp l.high latency) l.overall ∙ s.1,
          ground (arith, s.2, more),
        ),
        ground (arith, s.0, s.1, c, laws.record_count (clamp l.high latency) l.overall),
        ground (arith, s.2, more),
      )

  put_at-sinks :
      (i : ℕ) (op : String) (latency : ℤ) (is_err : Bool) (high : ℤ) (ls : List (Local Hist))
      → pos 0 ≤ℤ high
      → All (IsSink high) ls
      → errors ls + 1 < two63
      → All (IsSink high) (put_at i op latency is_err ls)
        × (counts (put_at i op latency is_err ls)
            ≡ (if ltb i (length ls) then 1 else 0) + counts ls)
        × (errors (put_at i op latency is_err ls)
            ≡ (if ltb i (length ls) then (if is_err then 1 else 0) else 0) + errors ls)
        × (length (put_at i op latency is_err ls) ≡ length ls)
  unfolding put_at
  put_at-sinks i op latency is_err high [] h a b = (tt, ground arith, ground arith, refl)
  put_at-sinks zero op latency is_err high (l ∷ ls) h a b =
      let one = record_op-IsSink high op latency is_err l h a.0 (omega arith) in
      ((one.0, a.1), ground (arith, one.1), ground (arith, one.2), refl)
  put_at-sinks (suc i) op latency is_err high (l ∷ ls) h a b =
      let rest = put_at-sinks i op latency is_err high ls h a.1 (omega arith) in
      ((a.0, rest.0), ground (arith, rest.1), ground (arith, rest.2), ap suc rest.3)

  counts-append : (xs ys : List (Local Hist)) → counts (xs ++ ys) ≡ counts xs + counts ys
  counts-append [] ys = omega arith
  counts-append (x ∷ xs) ys = omega (arith, counts-append xs ys)

  errors-append : (xs ys : List (Local Hist)) → errors (xs ++ ys) ≡ errors xs + errors ys
  errors-append [] ys = omega arith
  errors-append (x ∷ xs) ys = omega (arith, errors-append xs ys)

  add_local-Sound : (r : Recorder Hist) (n e : ℕ) → Sound r n e → Sound (add_local lib r) n e
  unfolding add_local new_local
  add_local-Sound r n e s =
      let l = new_local lib r.high r.sig in
      let more = counts-append r.locals (l ∷ []) in
      let fewer = errors-append r.locals (l ∷ []) in
      record {
        range = s.range;
        sinks =
            All-append (IsSink r.high) r.locals (l ∷ []) s.sinks
              ((refl, laws.new_highest r.high r.sig, refl), tt);
        total = omega (arith, more, laws.new_count r.high r.sig, s.total);
        failed = omega (arith, fewer, s.failed);
      }

  pub run-Sound :
      (acts : List Action) (r : Recorder Hist) (n e sinks : ℕ)
      → Sound r n e
      → length r.locals ≡ sinks
      → e + length acts < two63
      → Sound (run acts r) (n + recorded sinks acts) (e + failures sinks acts)
  unfolding run step add_local
  run-Sound [] r n e sinks s k b = record {
    range = s.range;
    sinks = s.sinks;
    total = omega (arith, s.total);
    failed = omega (arith, s.failed);
  }
  run-Sound (add ∷ acts) r n e sinks s k b =
      run-Sound acts (add_local lib r) n e (suc sinks) (add_local-Sound r n e s)
        (omega (arith, k, length-append r.locals (new_local lib r.high r.sig ∷ []))) (omega arith)
  run-Sound (put i op latency is_err ∷ acts) r n e sinks s k b =
      let p =
        put_at-sinks i op latency is_err r.high r.locals s.range s.sinks
          (omega (arith, s.failed)) in
      let one : ℕ = if ltb i sinks then 1 else 0 in
      let bad : ℕ = if ltb i sinks then (if is_err then 1 else 0) else 0 in
      let few : bad < 2 = ground arith in
      let next : Sound (step (put i op latency is_err) r) (one + n) (bad + e) = record {
        range = s.range;
        sinks = p.0;
        total = ground (arith, p.1, s.total, k);
        failed = ground (arith, p.2, s.failed, k);
      } in
      let rest =
        run-Sound acts (step (put i op latency is_err) r) (one + n) (bad + e) sinks next (p.3 ∙ k)
          (omega arith) in
      record {
        range = rest.range;
        sinks = rest.sinks;
        total = omega (arith, rest.total);
        failed = omega (arith, rest.failed);
      }

  collect_locals-totals :
      (high sig : ℤ) (ls : List (Local Hist)) (m : Merged Hist) (k : ℕ)
      → All (IsSink high) ls
      → (export m.overall).highest ≡ high
      → m.err_total ≡ pos k
      → k + errors ls < two63
      → let c = collect_locals lib high sig ls m in
        ((export c.overall).highest ≡ high)
        × (total_count c.overall ≡ total_count m.overall + counts ls)
        × (c.err_total ≡ pos (k + errors ls))
  unfolding collect_locals
  collect_locals-totals high sig [] m k a h e b = (h, omega arith, e ∙ ap pos (omega arith))
  collect_locals-totals high sig (l ∷ ls) m k a h e b =
      let next : Merged Hist = record {
        overall = lib.merge_hist m.overall l.overall;
        by_op = merge_ops lib high sig l.by_op m.by_op;
        err_by_op = merge_errors lib l.err_by_op m.err_by_op;
        err_total = add64 m.err_total l.err_total;
      } in
      let rest =
        collect_locals-totals high sig ls next (k + pos_part l.err_total) a.1
          (laws.merge_highest m.overall l.overall ∙ h)
          (ground (arith, e, a.0, add64-pos k (pos_part l.err_total))) (omega arith) in
      let merged = laws.merge_count m.overall l.overall (h ∙ sym a.0.1) in
      (rest.0, omega (arith, rest.1, merged), rest.2 ∙ ap pos (omega arith))

  pub collect-totals :
      (r : Recorder Hist) (n e : ℕ)
      → Sound r n e
      → e < two63
      → ((export (collect lib r).overall).highest ≡ r.high)
        × (total_count (collect lib r).overall ≡ n)
        × ((collect lib r).err_total ≡ pos e)
  unfolding collect
  collect-totals r n e s b =
      let c =
        collect_locals-totals r.high r.sig r.locals _ 0 s.sinks (laws.new_highest r.high r.sig) refl
          (omega (arith, s.failed)) in
      (
        c.0,
        omega (arith, c.1, laws.new_count r.high r.sig, s.total),
        c.2 ∙ ap pos (omega (arith, s.failed)),
      )

  pub merge-high : (r q : Recorder Hist) → (merge lib r q).high ≡ r.high
  unfolding merge
  merge-high r q = refl

  pub Sound-same :
      (r : Recorder Hist) (n n' e e' : ℕ) → Sound r n e → n ≡ n' → e ≡ e' → Sound r n' e'
  Sound-same r n n' e e' s p q = record {
    range = s.range;
    sinks = s.sinks;
    total = s.total ∙ p;
    failed = s.failed ∙ q;
  }

  pub merge-Sound :
      (r q : Recorder Hist) (n e n' e' : ℕ)
      → Sound r n e
      → Sound q n' e'
      → r.high ≡ q.high
      → e' < two63
      → Sound (merge lib r q) (n + n') (e + e')
  unfolding merge
  merge-Sound r q n e n' e' s s' same b =
      let c = collect-totals q n' e' s' b in
      let m = collect lib q in
      let l : Local Hist = record {
        high = r.high;
        sig = r.sig;
        overall = m.overall;
        by_op = m.by_op;
        err_by_op = m.err_by_op;
        err_total = m.err_total;
      } in
      let known : pos_part m.err_total ≡ e' = ap pos_part c.2 in
      record {
        range = s.range;
        sinks =
            All-append (IsSink r.high) r.locals (l ∷ []) s.sinks
              ((refl, c.0 ∙ sym same, ground (arith, c.2)), tt);
        total = omega (arith, counts-append r.locals (l ∷ []), c.1, s.total);
        failed = omega (arith, errors-append r.locals (l ∷ []), known, s.failed);
      }
