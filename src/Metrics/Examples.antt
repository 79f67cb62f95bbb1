-- ===== src/Metrics/Examples.antt =====
-- The theorems on the recorder with a histogram that only counts the values of its range.
use proofload_sh.Prelude.{
  length, ℕ, suc, ◌+◌, ◌≡◌, refl, arith, true, false, none, List, [], ◌∷◌, map, ℤ, pos, ltb_ℤ,
  eqb_ℤ, eqb_ℤ_iff, eqb, some, lookup, insert, ◌&&◌, ◌==◌, string_eq, if◌then◌else◌, ◌||◌,
}
use proofload_sh.Metrics.{
  Histograms, Snapshot, Local, CountLaws, Options, snapshot, default_max_latency, Recorder,
  Envelope, encode, encode_ops, collect, collect_locals, merge_ops, merge_errors,
}
use proofload_sh.Metrics.Sinks.{Action, add, put, recorded, failures, Sound}
use proofload_sh.Machine.{add64}
use proofload_sh.Metrics.Codec.{CodecLaws}
use proofload_sh.Metrics.Totals.{reached, snapshot-reached}
use proofload_sh.Metrics.Intervals.{last_of, add_all}
use proofload_sh.Metrics.Intervals.Calls.{take_all, add_all-take_all}

-- A range and a count, with a text for the count of one in the default range.
abbrev pub counter : Histograms
counter = record {
  Hist = ℤ × ℕ;
  new_hist = λ high sig. (high, 0);
  record_value = λ v h. (h.0, (if ltb_ℤ v (pos 0) || ltb_ℤ h.0 v then h.1 else suc h.1));
  merge_hist = λ a b. (a.0, a.1 + b.1);
  total_count = λ h. h.1;
  export = λ h. record { lowest = pos 1; highest = h.0; figures = pos 3; counts = pos h.1 ∷ [] };
  import = λ s. (s.highest, 0);
  encode_hist = λ h. if eqb_ℤ h.0 default_max_latency && eqb h.1 1 then some "one" else none;
  decode_hist = λ s. if s == "one" then some (default_max_latency, 1) else none;
}

pub counter-CountLaws : CountLaws counter
counter-CountLaws = record {
  new_count = λ high sig. refl;
  new_highest = λ high sig. refl;
  record_count = λ v h low high. ground arith;
  record_highest = λ v h. refl;
  merge_count = λ a b same. refl;
  merge_highest = λ a b. refl;
}

pub counter-CodecLaws : CodecLaws counter
counter-CodecLaws = record {
  decode_encode = λ h s e. (
    (default_max_latency, 1),
    ground (arith, e, eqb_ℤ_iff h.0 default_max_latency, string_eq.beq_iff s "one"),
    ground (arith, e),
    ground (arith, e, eqb_ℤ_iff h.0 default_max_latency),
  );
}

abbrev pub defaults : Options
defaults = record { significant_figures = pos 0; max_latency = pos 0 }

-- Two sinks, two records, one of them failed and far out of range, and a record into no sink.
abbrev five_actions : List Action
five_actions =
    add
    ∷ put 0 "read" (pos 7) false
    ∷ add
    ∷ put 1 "write" (pos 99000000000) true
    ∷ put 2 "read" (pos 1) false
    ∷ []

snapshot-reached_example :
    let s = snapshot counter (pos 9) (reached counter counter-CountLaws defaults five_actions) in
    (s.total ≡ pos (recorded 0 five_actions)) × (s.errors ≡ pos (failures 0 five_actions))
snapshot-reached_example =
    snapshot-reached counter counter-CountLaws defaults five_actions (pos 9) (omega arith)

-- A histogram of two bins, which is its own snapshot.
abbrev bump : List ℤ → List ℤ
bump [] = []
bump (n ∷ ns) = add64 n (pos 1) ∷ ns

abbrev add_each : List ℤ → List ℤ → List ℤ
add_each [] ys = ys
add_each (x ∷ xs) [] = x ∷ xs
add_each (x ∷ xs) (y ∷ ys) = add64 x y ∷ add_each xs ys

abbrev two_bins : Histograms
two_bins = record {
  Hist = Snapshot;
  new_hist = λ high sig. record {
    lowest = pos 1;
    highest = high;
    figures = sig;
    counts = pos 0 ∷ pos 0 ∷ [];
  };
  record_value = λ v h. record h { counts = if ltb_ℤ v (pos 100) then bump h.counts else h.counts };
  merge_hist = λ a b. record a { counts = add_each a.counts b.counts };
  total_count = λ h. length h.counts;
  export = λ h. h;
  import = λ s. s;
  encode_hist = λ h. none;
  decode_hist = λ s. none;
}

-- A sink with some reads.
abbrev reads : ℤ → ℤ → Local Snapshot
reads fast slow =
    let h : Snapshot = record {
      lowest = pos 1;
      highest = pos 9;
      figures = pos 3;
      counts = fast ∷ slow ∷ [];
    } in
    record {
      high = pos 9;
      sig = pos 3;
      overall = h;
      by_op = ("read", h) ∷ [];
      err_by_op = [];
      err_total = pos 0;
    }

abbrev untaken : Recorder Snapshot
untaken = record { high = pos 9; sig = pos 3; locals = []; prev_snap = []; prev_err = [] }

-- Three calls, the second with a second sink.
add_all-take_all_example :
    add_all (pos 0 ∷ pos 0 ∷ []) (
      take_all two_bins "read"
        ((reads (pos 1) (pos 0) ∷ [])
          ∷ (reads (pos 1) (pos 1) ∷ reads (pos 0) (pos 3) ∷ [])
          ∷ (reads (pos 4) (pos 1) ∷ reads (pos 2) (pos 3) ∷ [])
          ∷ [])
        untaken)
    ≡ map pos (last_of (1 ∷ 0 ∷ []) ((1 ∷ 4 ∷ []) ∷ (6 ∷ 4 ∷ []) ∷ []))
unfolding collect collect_locals merge_ops merge_errors lookup insert add64
add_all-take_all_example =
    add_all-take_all two_bins "read" untaken (reads (pos 1) (pos 0) ∷ [])
      ((reads (pos 1) (pos 1) ∷ reads (pos 0) (pos 3) ∷ [])
        ∷ (reads (pos 4) (pos 1) ∷ reads (pos 2) (pos 3) ∷ [])
        ∷ [])
      (1 ∷ 0 ∷ []) ((1 ∷ 4 ∷ []) ∷ (6 ∷ 4 ∷ []) ∷ []) (λ s. refl) refl
      ((_, refl, refl), ((_, refl, refl), ((_, refl, refl), tt))) (omega arith) (omega arith)

-- A recorder that one operation went to, and what it encodes.
abbrev pub one_recorder : Recorder (ℤ × ℕ)
one_recorder = record {
  high = default_max_latency;
  sig = pos 3;
  locals =
      record {
        high = default_max_latency;
        sig = pos 3;
        overall = (default_max_latency, 1);
        by_op = ("read", (default_max_latency, 1)) ∷ [];
        err_by_op = [];
        err_total = pos 0;
      }
      ∷ [];
  prev_snap = [];
  prev_err = [];
}

abbrev pub one_envelope : Envelope
one_envelope = record {
  high = default_max_latency;
  sig = pos 3;
  overall = "one";
  by_op = ("read", "one") ∷ [];
  err_by_op = [];
  err_total = pos 0;
}

pub encode-one_recorder : encode counter one_recorder ≡ some one_envelope
unfolding encode encode_ops collect collect_locals merge_ops merge_errors lookup insert add64
encode-one_recorder = refl

pub one_recorder-Sound : Sound counter counter-CountLaws one_recorder 1 0
one_recorder-Sound = record {
  range = omega arith;
  sinks = ((refl, refl, refl), tt);
  total = refl;
  failed = refl;
}
