-- ===== src/Metrics/Intervals/Calls.antt =====
-- core/metrics/interval.go: what successive calls of `TakeInterval` return.
use proofload_sh.Prelude.{
  ℕ, ◌≡◌, refl, ap, ◌∙◌, arith, inl, inr, Bool, true, false, ltb, Bool-cases, if◌then◌else◌, none,
  some, List, [], ◌∷◌, ◌++◌, map, ℤ, pos, String, ◌==◌, string_eq, Dict, lookup, insert,
  lookup-insert,
}
use proofload_sh.Prelude.Names.{keys, Distinct, insert-Distinct, empty-Distinct}
use proofload_sh.Prelude.Sort.{less_text, tally, sort_stable, tally-sort_stable}
use proofload_sh.Metrics.{
  bin_deltas, Snapshot, Histograms, Local, Recorder, Merged, Interval, delta_hist, or_new, or_zero,
  collect, collect_locals, merge_ops, op_names, take_ops, take_interval,
}
use proofload_sh.Metrics.Intervals.{
  Chain, Small, last_of, add_all, differences, add_all-differences, add_bins-zero,
}

-- Whether a name is among some.
abbrev occurs : String → List String → Bool
occurs op ops = ltb 0 (tally (λ o. o == op) ops)

module _ (lib : Histograms) where
  open lib use {Hist, export, import}

  op_names-keys : (m : Dict String Hist) → op_names lib m ≡ keys m
  op_names-keys [] = refl
  op_names-keys ((op, h) ∷ m) = ap (λ (ops : List String). op ∷ ops) (op_names-keys m)

  merge_ops-Distinct :
      (high sig : ℤ) (ops m : Dict String Hist)
      → Distinct m
      → Distinct (merge_ops lib high sig ops m)
  unfolding merge_ops
  merge_ops-Distinct high sig [] m d = d
  merge_ops-Distinct high sig ((op, h) ∷ ops) m d =
      merge_ops-Distinct high sig ops _ (insert-Distinct op _ m d)

  collect_locals-Distinct :
      (high sig : ℤ) (ls : List (Local Hist)) (m : Merged Hist)
      → Distinct m.by_op
      → Distinct (collect_locals lib high sig ls m).by_op
  unfolding collect_locals
  collect_locals-Distinct high sig [] m d = d
  collect_locals-Distinct high sig (l ∷ ls) m d =
      collect_locals-Distinct high sig ls _ (merge_ops-Distinct high sig l.by_op m.by_op d)

  -- An operation type that the sinks hold is named once.
  named_once :
      (op : String) (h : Hist) (r : Recorder Hist)
      → lookup op (collect lib r).by_op ≡ some h
      → tally (λ o. o == op) (op_names lib (collect lib r).by_op) ≡ 1
  unfolding collect
  named_once op h r held =
      ap (tally (λ o. o == op)) (op_names-keys (collect lib r).by_op)
      ∙ collect_locals-Distinct r.high r.sig r.locals _ (empty-Distinct String Hist) op
      ∙ rw held refl

  -- The bins of the intervals of an operation type that a call returned.
  abbrev pub bins_for : String → List (Interval Hist) → List (List ℤ)
  bins_for op [] = []
  bins_for op (i ∷ is) =
      let rest = bins_for op is in if i.op == op then (export i.delta).counts ∷ rest else rest

  -- Successive calls of `TakeInterval` on one recorder, each with the sinks as they are at that call, and
  -- the bins that they return for an operation type.
  abbrev pub take_all : String → List (List (Local Hist)) → Recorder Hist → List (List ℤ)
  take_all op [] r = []
  take_all op (ls ∷ lss) r =
      let taken = take_interval lib (record r { locals = ls }) in
      bins_for op taken.0 ++ take_all op lss taken.1

  -- A recorder with some range and sinks, of which no interval was taken.
  abbrev pub with_sinks : (high sig : ℤ) → List (Local Hist) → Recorder Hist
  with_sinks high sig ls = record {
    high = high;
    sig = sig;
    locals = ls;
    prev_snap = [];
    prev_err = [];
  }

  -- The sinks of each call hold operations of the type, and these are the bins of their sum.
  abbrev pub Shows : (high sig : ℤ) → String → List (List (Local Hist)) → List (List ℕ) → Type 0
  Shows high sig op [] [] = Unit
  Shows high sig op (ls ∷ lss) (c ∷ cs) =
      ((h : Hist) × (lookup op (collect lib (with_sinks high sig ls)).by_op ≡ some h)
        × ((export h).counts ≡ map pos c))
      × Shows high sig op lss cs
  Shows high sig op _ _ = ⊥

  module _ (m : Merged Hist) (op : String) (h : Hist) (held : lookup op m.by_op ≡ some h) where
    bins_for-absent :
        (ops : List String) (r : Recorder Hist)
        → tally (λ o. o == op) ops ≡ 0
        → bins_for op (take_ops lib m ops r).0 ≡ []
    unfolding take_ops
    bins_for-absent [] r e = refl
    bins_for-absent (o ∷ ops) r e =
        let errors = or_zero (lookup o m.err_by_op) in
        let cur = or_new lib r.high r.sig (lookup o m.by_op) in
        let rest =
          bins_for-absent ops
            (record r {
              prev_snap = insert o (export cur) r.prev_snap;
              prev_err = insert o errors r.prev_err;
            })
            (ground (arith, e)) in
        let apart : (o == op) ≡ false = ground (arith, e) in rw apart rest

    -- The loop over the operation types returns the change of the type, and keeps its snapshot.
    bins_for-take_ops :
        (ops : List String) (r : Recorder Hist)
        → tally (λ o. o == op) ops ≡ 1
        → bins_for op (take_ops lib m ops r).0
          ≡ (export (delta_hist lib h (lookup op r.prev_snap))).counts ∷ []
    unfolding take_ops
    bins_for-take_ops [] r e = ground (arith, e)
    bins_for-take_ops (o ∷ ops) r e =
        let errors = or_zero (lookup o m.err_by_op) in
        let cur = or_new lib r.high r.sig (lookup o m.by_op) in
        let rest = bins_for-take_ops ops (record r {
          prev_snap = insert o (export cur) r.prev_snap;
          prev_err = insert o errors r.prev_err;
        }) in
        let kept = lookup-insert o op (export cur) r.prev_snap in
        elim (Bool-cases (o == op)) [
          | inl same ↦
              let e1 : o ≡ op = (string_eq.beq_iff o op).0 same in
              let none_more =
                bins_for-absent ops
                  (record r {
                    prev_snap = insert o (export cur) r.prev_snap;
                    prev_err = insert o errors r.prev_err;
                  })
                  (ground (arith, e, same)) in
              rw same (
                ap (λ bs. (export (delta_hist lib cur (lookup o r.prev_snap))).counts ∷ bs)
                  none_more
                ∙ rw (e1, held) refl)
          | inr apart ↦ rw apart (rest (ground (arith, e, apart)) ∙ rw (kept, apart) refl)
        ]

    snap-take_ops :
        (ops : List String) (r : Recorder Hist)
        → lookup op (take_ops lib m ops r).1.prev_snap
          ≡ (if occurs op ops then some (export h) else lookup op r.prev_snap)
    unfolding take_ops
    snap-take_ops [] r = refl
    snap-take_ops (o ∷ ops) r =
        let errors = or_zero (lookup o m.err_by_op) in
        let cur = or_new lib r.high r.sig (lookup o m.by_op) in
        let rest = snap-take_ops ops (record r {
          prev_snap = insert o (export cur) r.prev_snap;
          prev_err = insert o errors r.prev_err;
        }) in
        let kept = lookup-insert o op (export cur) r.prev_snap in
        elim (Bool-cases (o == op)) [
          | inl same ↦
              let e1 : o ≡ op = (string_eq.beq_iff o op).0 same in
              let mine : cur ≡ h = rw (e1, held) refl in
              ground (arith, rest, kept, same, ap export mine)
          | inr apart ↦ ground (arith, rest, kept, apart)
        ]

  range-take_ops :
      (m : Merged Hist) (ops : List String) (r : Recorder Hist)
      → ((take_ops lib m ops r).1.high ≡ r.high) × ((take_ops lib m ops r).1.sig ≡ r.sig)
  unfolding take_ops
  range-take_ops m [] r = (refl, refl)
  range-take_ops m (o ∷ ops) r = range-take_ops m ops (record r {
    prev_snap = insert o (export (or_new lib r.high r.sig (lookup o m.by_op))) r.prev_snap;
    prev_err = insert o (or_zero (lookup o m.err_by_op)) r.prev_err;
  })

  -- One call returns the change of an operation type that the sinks hold, and keeps its snapshot.
  take_interval-lem :
      (op : String) (h : Hist) (ls : List (Local Hist)) (r : Recorder Hist)
      → lookup op (collect lib (with_sinks r.high r.sig ls)).by_op ≡ some h
      → let taken = take_interval lib (record r { locals = ls }) in
        (bins_for op taken.0 ≡ (export (delta_hist lib h (lookup op r.prev_snap))).counts ∷ [])
        × (lookup op taken.1.prev_snap ≡ some (export h))
        × (taken.1.high ≡ r.high)
        × (taken.1.sig ≡ r.sig)
  unfolding take_interval collect
  take_interval-lem op h ls r held =
      let now : Recorder Hist = record r { locals = ls } in
      let m : Merged Hist = collect lib now in
      let ops = sort_stable less_text (op_names lib m.by_op) in
      let once : tally (λ o. o == op) ops ≡ 1 =
        tally-sort_stable (λ o. o == op) less_text (op_names lib m.by_op)
        ∙ named_once op h now held in
      let among : occurs op ops ≡ true = ap (ltb 0) once in
      let range = range-take_ops m ops now in
      (
        bins_for-take_ops m op h held ops now once,
        snap-take_ops m op h held ops now ∙ rw among refl,
        range.0,
        range.1,
      )

  module _ (round : (s : Snapshot) → export (import s) ≡ s) (high sig : ℤ) (op : String) where
    -- With a snapshot kept, the calls return the differences from it on.
    take_all-differences :
        (prev : List ℕ) (snap : Snapshot) (lss : List (List (Local Hist))) (cs : List (List ℕ))
        (r : Recorder Hist)
        → snap.counts ≡ map pos prev
        → lookup op r.prev_snap ≡ some snap
        → r.high ≡ high
        → r.sig ≡ sig
        → Shows high sig op lss cs
        → take_all op lss r ≡ differences prev cs
    take_all-differences prev snap [] [] r e k hi si shows = refl
    take_all-differences prev snap [] (c ∷ cs) r e k hi si shows = absurd shows
    take_all-differences prev snap (ls ∷ lss) [] r e k hi si shows = absurd shows
    take_all-differences prev snap (ls ∷ lss) (c ∷ cs) r e k hi si ((h, held, bins), shows) =
        let t = take_interval-lem op h ls r (rw (hi, si) held) in
        let taken = take_interval lib (record r { locals = ls }) in
        let delta : (export (delta_hist lib h (lookup op r.prev_snap))).counts
            ≡ bin_deltas (map pos c) (map pos prev) =
          unfold delta_hist in rw (k, round _, bins, e) refl in
        ap (λ bs. bs ++ take_all op lss taken.1) (t.0 ∙ ap (λ (b : List ℤ). b ∷ []) delta)
        ∙ ap (λ (bs : List (List ℤ)). bin_deltas (map pos c) (map pos prev) ∷ bs)
            (take_all-differences c (export h) lss cs taken.1 bins t.1 (t.2 ∙ hi) (t.3 ∙ si) shows)

  -- Calls of `TakeInterval` on a recorder that has returned no interval of an operation type yet, with any sinks
  -- at each call. There are operations of the type at each, and no bin of their counts is smaller than at the call
  -- before or as large as 2^63. Then the counts that all the calls return for the type, added up bin by bin, are its
  -- counts in the sinks at the last call: no operation is lost between intervals or counted twice. The library
  -- exports a histogram that it imported as it was.
  pub add_all-take_all :
      (op : String) (r : Recorder Hist) (ls : List (Local Hist)) (lss : List (List (Local Hist)))
      (first : List ℕ) (later : List (List ℕ))
      → ((s : Snapshot) → export (import s) ≡ s)
      → lookup op r.prev_snap ≡ none
      → Shows r.high r.sig op (ls ∷ lss) (first ∷ later)
      → Small first
      → Chain first later
      → add_all (map (λ x. pos 0) first) (take_all op (ls ∷ lss) r) ≡ map pos (last_of first later)
  add_all-take_all op r ls lss first later round none_yet ((h, held, bins), shows) small chain =
      let t = take_interval-lem op h ls r held in
      let taken = take_interval lib (record r { locals = ls }) in
      let delta : (export (delta_hist lib h (lookup op r.prev_snap))).counts ≡ map pos first =
        unfold delta_hist in rw (none_yet, round _, bins) refl in
      let all : take_all op (ls ∷ lss) r ≡ map pos first ∷ differences first later =
        ap (λ bs. bs ++ take_all op lss taken.1) (t.0 ∙ ap (λ (b : List ℤ). b ∷ []) delta)
        ∙ ap (λ (bs : List (List ℤ)). map pos first ∷ bs)
            (take_all-differences round r.high r.sig op first (export h) lss later taken.1 bins t.1
              t.2 t.3 shows) in
      ap (add_all (map (λ x. pos 0) first)) all
      ∙ ap (λ acc. add_all acc (differences first later)) (add_bins-zero first small)
      ∙ add_all-differences first later chain
