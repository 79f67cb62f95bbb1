-- ===== src/Metrics/Hlog.antt =====
-- core/metrics/hlog.go: the lines of a histogram log. The library prints them; an output that fails ends the log.
use proofload_sh.Prelude.{
  ℕ, Bool, ◌||◌, List, [], ◌∷◌, map, if◌then◌else◌, ℤ, String, lookup, string_eq, eqb, leb, codes,
  length, take,
}
use proofload_sh.Prelude.Sort.{sort_stable, less_text}
use proofload_sh.Metrics.{Histograms, Recorder, Merged, collect, or_new, op_names}

-- `tagFor`: the code points of a tag.
abbrev pub tag_char : ℕ → ℕ
tag_char c = if eqb c b',' || eqb c b' ' || eqb c 9 || eqb c 13 || eqb c 10 then b'_' else c

pub tag_for : List ℕ → List ℕ
tag_for [] = codes "op"
tag_for (c ∷ cs) = map tag_char (c ∷ cs)

-- One output of the log writer.
pub data LogLine (H : Type 0) : Type 0 where
  version legend : LogLine H
  start_time : ℤ → LogLine H
  interval : (tag : List ℕ) → (start_ms : ℤ) → H → LogLine H

module _ (lib : Histograms) where
  open lib use {Hist}

  op_lines : Recorder Hist → Merged Hist → ℤ → List String → List (LogLine Hist)
  unfolding tag_for
  op_lines r m start_ms [] = []
  op_lines r m start_ms (op ∷ ops) =
      interval (tag_for (codes op)) start_ms (or_new lib r.high r.sig (lookup op m.by_op))
      ∷ op_lines r m start_ms ops

  hlog_lines : Recorder Hist → ℤ → List (LogLine Hist)
  unfolding op_lines
  hlog_lines r start_ms =
      let m = collect lib r in
      version
      ∷ start_time start_ms
      ∷ legend
      ∷ interval (codes "overall") start_ms m.overall
      ∷ op_lines r m start_ms (sort_stable less_text (op_names lib m.by_op))

  -- `WriteHLog`: what is written, and whether all of it was, when the writer takes `accepted` outputs.
  pub write_hlog : (accepted : ℕ) → Recorder Hist → ℤ → List (LogLine Hist) × Bool
  unfolding hlog_lines
  write_hlog accepted r start_ms =
      let lines = hlog_lines r start_ms in (take accepted lines, leb (length lines) accepted)
