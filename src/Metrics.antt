-- ===== src/Metrics.antt =====
-- core/metrics: the recorder of latencies (recorder.go, local.go, interval.go, codec.go and
-- percentiles.go). The HdrHistogram library is not part of the repository: a record of its operations is a
-- parameter, and what the code relies on is a record of laws. Throughput and percentiles are floats computed
-- from a histogram; a result keeps the histogram in their place. Each of `Record`, `collect` and
-- `TakeInterval` holds the locks it needs, and is one step.
pub mod Sinks
pub mod Totals
pub mod Intervals
pub mod Codec
pub mod Hlog
pub mod Examples
use proofload_sh.Prelude.{
  ℕ, zero, suc, ◌≡◌, ◌≤◌, ◌+◌, Bool, true, false, ◌||◌, Option, none, some, List, [], ◌∷◌, ◌++◌,
  map, if◌then◌else◌, ℤ, pos, ltb_ℤ, leb_ℤ, ◌≤ℤ◌, String, Dict, lookup, insert, string_eq,
  get_elem?, eqb, codes, ◌>>=◌,
}
use proofload_sh.Prelude.Sort.{sort_stable, less_text}
use proofload_sh.Machine.{add64, sub64}

-- hdrhistogram.Snapshot
pub record Snapshot : Type 0 where
  pub lowest : ℤ
  pub highest : ℤ
  pub figures : ℤ
  pub counts : List ℤ

-- What the code uses of hdrhistogram-go: New, RecordValue, Merge, TotalCount, Export, Import, Encode, Decode.
pub record Histograms : Type 1 where
  pub Hist : Type 0
  pub new_hist : (high sig : ℤ) → Hist
  pub record_value : ℤ → Hist → Hist
  pub merge_hist : (into from : Hist) → Hist
  pub total_count : Hist → ℕ
  pub export : Hist → Snapshot
  pub import : Snapshot → Hist
  pub encode_hist : Hist → Option String
  pub decode_hist : String → Option Hist

-- `Local`, without its lock.
pub record Local (H : Type 0) : Type 0 where
  pub high : ℤ
  pub sig : ℤ
  pub overall : H
  pub by_op : Dict String H
  pub err_by_op : Dict String ℤ
  pub err_total : ℤ

-- `Recorder`
pub record Recorder (H : Type 0) : Type 0 where
  pub high : ℤ
  pub sig : ℤ
  pub locals : List (Local H)
  pub prev_snap : Dict String Snapshot
  pub prev_err : Dict String ℤ

-- `merged`
pub record Merged (H : Type 0) : Type 0 where
  pub overall : H
  pub by_op : Dict String H
  pub err_by_op : Dict String ℤ
  pub err_total : ℤ

-- `Options`
pub record Options : Type 0 where
  pub significant_figures : ℤ
  pub max_latency : ℤ

-- Three significant figures and 60 seconds.
abbrev pub default_sig_figs : ℤ
default_sig_figs = pos 3

abbrev pub default_max_latency : ℤ
default_max_latency = pos 60000000000

abbrev pub figures_of : ℤ → ℤ
figures_of sig = if ltb_ℤ sig (pos 1) || ltb_ℤ (pos 5) sig then default_sig_figs else sig

-- `New`
pub new_recorder : (H : Type 0) → Options → Recorder H
new_recorder H o = record {
  high = if leb_ℤ o.max_latency (pos 0) then default_max_latency else o.max_latency;
  sig = figures_of o.significant_figures;
  locals = [];
  prev_snap = [];
  prev_err = [];
}

abbrev pub or_zero : Option ℤ → ℤ
or_zero none = pos 0
or_zero (some n) = n

abbrev pub clamp : ℤ → ℤ → ℤ
clamp high ns =
    let floor = if ltb_ℤ ns (pos 0) then pos 0 else ns in if ltb_ℤ high floor then high else floor

-- What `TakeInterval` returns for one operation type: its errors and its histogram since the last call.
pub record Interval (H : Type 0) : Type 0 where
  pub op : String
  pub errors : ℤ
  pub delta : H

-- The counts that `deltaHist` computes, bin by bin; a bin that the old snapshot lacks is new.
abbrev pub bin_delta : ℤ → Option ℤ → ℤ
bin_delta cur none = if ltb_ℤ cur (pos 0) then pos 0 else cur
bin_delta cur (some prev) = let d = sub64 cur prev in if ltb_ℤ d (pos 0) then pos 0 else d

abbrev pub tail_of : List ℤ → List ℤ
tail_of [] = []
tail_of (x ∷ xs) = xs

pub bin_deltas : (cur prev : List ℤ) → List ℤ
bin_deltas [] prev = []
bin_deltas (c ∷ cs) prev = bin_delta c (get_elem? prev 0) ∷ bin_deltas cs (tail_of prev)

-- The aggregate of a phase: RunResult, with the histograms in place of its percentiles.
pub record Phase (H : Type 0) : Type 0 where
  pub total : ℤ
  pub errors : ℤ
  pub duration : ℤ
  pub overall : H
  pub by_op : Dict String H

-- `wireEnvelope`, before it becomes JSON.
pub record Envelope : Type 0 where
  pub high : ℤ
  pub sig : ℤ
  pub overall : String
  pub by_op : Dict String String
  pub err_by_op : Dict String ℤ
  pub err_total : ℤ

module _ (lib : Histograms) where
  open lib use {
    Hist, new_hist, record_value, merge_hist, total_count, export, import, encode_hist, decode_hist,
  }

  -- What the library documents: a value within the range is counted, and a merge of a histogram with the same range
  -- drops nothing.
  pub record CountLaws : Type 0 where
    pub new_count : (high sig : ℤ) → total_count (new_hist high sig) ≡ 0
    pub new_highest : (high sig : ℤ) → (export (new_hist high sig)).highest ≡ high
    pub record_count :
        (v : ℤ) (h : Hist)
        → pos 0 ≤ℤ v
        → v ≤ℤ (export h).highest
        → total_count (record_value v h) ≡ suc (total_count h)
    pub record_highest :
        (v : ℤ) (h : Hist) → (export (record_value v h)).highest ≡ (export h).highest
    pub merge_count :
        (a b : Hist)
        → (export a).highest ≡ (export b).highest
        → total_count (merge_hist a b) ≡ total_count a + total_count b
    pub merge_highest : (a b : Hist) → (export (merge_hist a b)).highest ≡ (export a).highest

  -- `newLocal`
  pub new_local : ℤ → ℤ → Local Hist
  new_local high sig = record {
    high = high;
    sig = sig;
    overall = new_hist high sig;
    by_op = [];
    err_by_op = [];
    err_total = pos 0;
  }

  abbrev pub or_new : ℤ → ℤ → Option Hist → Hist
  or_new high sig none = new_hist high sig
  or_new high sig (some h) = h

  -- `Local.Record`
  pub record_op : String → ℤ → Bool → Local Hist → Local Hist
  record_op op latency is_err l =
      let ns = clamp l.high latency in
      record l {
        overall = record_value ns l.overall;
        by_op = insert op (record_value ns (or_new l.high l.sig (lookup op l.by_op))) l.by_op;
        err_by_op =
            if is_err
            then insert op (add64 (or_zero (lookup op l.err_by_op)) (pos 1)) l.err_by_op
            else l.err_by_op;
        err_total = if is_err then add64 l.err_total (pos 1) else l.err_total;
      }

  -- `Recorder.Local`: the new sink is the last.
  pub add_local : Recorder Hist → Recorder Hist
  unfolding new_local
  add_local r = record r { locals = r.locals ++ new_local r.high r.sig ∷ [] }

  -- The inner loops of `collect`.
  pub merge_ops : ℤ → ℤ → Dict String Hist → Dict String Hist → Dict String Hist
  merge_ops high sig [] m = m
  merge_ops high sig ((op, h) ∷ ops) m =
      merge_ops high sig ops (insert op (merge_hist (or_new high sig (lookup op m)) h) m)

  pub merge_errors : Dict String ℤ → Dict String ℤ → Dict String ℤ
  merge_errors [] m = m
  merge_errors ((op, c) ∷ ops) m = merge_errors ops (insert op (add64 (or_zero (lookup op m)) c) m)

  pub collect_locals : ℤ → ℤ → List (Local Hist) → Merged Hist → Merged Hist
  unfolding merge_ops merge_errors
  collect_locals high sig [] m = m
  collect_locals high sig (l ∷ ls) m = collect_locals high sig ls (record {
    overall = merge_hist m.overall l.overall;
    by_op = merge_ops high sig l.by_op m.by_op;
    err_by_op = merge_errors l.err_by_op m.err_by_op;
    err_total = add64 m.err_total l.err_total;
  })

  -- `collect`
  pub collect : Recorder Hist → Merged Hist
  unfolding collect_locals
  collect r =
      collect_locals r.high r.sig r.locals
        (record { overall = new_hist r.high r.sig; by_op = []; err_by_op = []; err_total = pos 0 })

  -- `Snapshot`
  pub snapshot : ℤ → Recorder Hist → Phase Hist
  unfolding collect
  snapshot duration r =
      let m = collect r in
      record {
        total = pos (total_count m.overall);
        errors = m.err_total;
        duration = duration;
        overall = m.overall;
        by_op = m.by_op;
      }

  -- `Merge`: the aggregate of the other recorder as one more sink.
  pub merge : Recorder Hist → Recorder Hist → Recorder Hist
  unfolding collect
  merge r other =
      let m = collect other in
      let synthetic : Local Hist = record {
        high = r.high;
        sig = r.sig;
        overall = m.overall;
        by_op = m.by_op;
        err_by_op = m.err_by_op;
        err_total = m.err_total;
      } in
      record r { locals = r.locals ++ synthetic ∷ [] }

  -- `deltaHist`
  pub delta_hist : Hist → Option Snapshot → Hist
  unfolding bin_deltas
  delta_hist cur none = import (export cur)
  delta_hist cur (some prev) =
      let cs = export cur in import (record cs { counts = bin_deltas cs.counts prev.counts })

  abbrev pub op_names : Dict String Hist → List String
  op_names [] = []
  op_names ((op, h) ∷ ops) = op ∷ op_names ops

  -- The loop of `TakeInterval` over the operation types.
  pub take_ops : Merged Hist → List String → Recorder Hist → List (Interval Hist) × Recorder Hist
  unfolding delta_hist
  take_ops m [] r = ([], r)
  take_ops m (op ∷ ops) r =
      let cur = or_new r.high r.sig (lookup op m.by_op) in
      let errors = or_zero (lookup op m.err_by_op) in
      let here : Interval Hist = record {
        op = op;
        errors = sub64 errors (or_zero (lookup op r.prev_err));
        delta = delta_hist cur (lookup op r.prev_snap);
      } in
      let (rest, r') = take_ops m ops (record r {
        prev_snap = insert op (export cur) r.prev_snap;
        prev_err = insert op errors r.prev_err;
      }) in
      (here ∷ rest, r')

  -- `TakeInterval`
  pub take_interval : Recorder Hist → List (Interval Hist) × Recorder Hist
  unfolding take_ops collect
  take_interval r = let m = collect r in take_ops m (sort_stable less_text (op_names m.by_op)) r

  pub encode_ops : Dict String Hist → Option (Dict String String)
  encode_ops [] = some []
  encode_ops ((op, h) ∷ ops) =
      (encode_hist h >>= λ (s : String).
      encode_ops ops >>= λ (rest : Dict String String). some ((op, s) ∷ rest))

  -- `Encode`, up to the JSON and the base64 text of the envelope: `none` is an error.
  pub encode : Recorder Hist → Option Envelope
  unfolding encode_ops collect
  encode r =
      let m = collect r in
      (encode_hist m.overall >>= λ (overall : String).
      encode_ops m.by_op >>= λ (by_op : Dict String String). some (record {
        high = r.high;
        sig = r.sig;
        overall = overall;
        by_op = by_op;
        err_by_op = m.err_by_op;
        err_total = m.err_total;
      }))

  pub decode_ops : Dict String String → Option (Dict String Hist)
  decode_ops [] = some []
  decode_ops ((op, s) ∷ ops) =
      (decode_hist s >>= λ (h : Hist).
      decode_ops ops >>= λ (rest : Dict String Hist). some ((op, h) ∷ rest))

  -- `Decode`, from the envelope.
  pub decode : Envelope → Option (Recorder Hist)
  unfolding decode_ops
  decode e =
      (decode_hist e.overall >>= λ (overall : Hist).
      decode_ops e.by_op >>= λ (by_op : Dict String Hist). some (record {
        high = e.high;
        sig = figures_of e.sig;
        locals =
            record {
              high = e.high;
              sig = figures_of e.sig;
              overall = overall;
              by_op = by_op;
              err_by_op = e.err_by_op;
              err_total = e.err_total;
            }
            ∷ [];
        prev_snap = [];
        prev_err = [];
      }))
