-- ===== src/Kafka/Analysis/Ordering.antt =====
-- The ordering violations that `analyzeLog` counts.
use proofload_sh.Prelude.{
  ℕ, ◌+◌, ◌<◌, ◌≡◌, ◌≢◌, refl, ap, sym, ◌∙◌, ◌⊎◌, inl, inr, arith, Bool, true, false, not,
  Bool-cases, eqb_ℤ, eqb_ℤ_iff, ◌≤ℤ◌, leb_ℤ, Option, none, some, List, [], ◌∷◌, if◌then◌else◌, ℤ,
  pos, length, lookup, lookup-insert, int_eq, ◌==◌,
}
use proofload_sh.Prelude.Sort.{
  sort_stable, length-sort_stable, tally, tally-sort_stable, Sorted, sort_stable-Sorted,
}
use proofload_sh.Machine.{two63, add64-pos}
use proofload_sh.Kafka.Analysis.{
  LogRecord, Seen, earlier, decreases, observe, observe_all, nothing_seen, analyze_log,
}

-- The sequence number of the last record of a key, in a log with the latest record first.
abbrev pub last_of : ℤ → List LogRecord → Option ℤ
last_of k [] = none
last_of k (r ∷ rs) = if r.key == k then some r.seq else last_of k rs

-- The number is smaller than the last one, if there is one.
abbrev pub smaller : ℤ → Option ℤ → Bool
smaller seq none = false
smaller seq (some last) = not (leb_ℤ last seq)

-- How many records have a smaller number than the last record of their key before them, after a log
-- `before`, which has its latest record first.
abbrev pub violations : List LogRecord → List LogRecord → ℕ
violations before [] = 0
violations before (r ∷ rs) =
    (if smaller r.seq (last_of r.key before) then 1 else 0) + violations (r ∷ before) rs

decreases-smaller : (seq : ℤ) (o : Option ℤ) → decreases o seq ≡ smaller seq o
decreases-smaller seq none = refl
decreases-smaller seq (some last) = ground arith

observe_all-ordering :
    (rs before : List LogRecord) (s : Seen) (n : ℕ)
    → ((k : ℤ) → lookup k s.last_seq ≡ last_of k before)
    → s.ordering ≡ pos n
    → n + length rs < two63
    → (observe_all rs s).ordering ≡ pos (n + violations before rs)
unfolding observe_all observe
observe_all-ordering [] before s n h e b = e ∙ ap pos (omega arith)
observe_all-ordering (r ∷ rs) before s n h e b =
    let bump : ℕ = if smaller r.seq (last_of r.key before) then 1 else 0 in
    let more : bump < 2 = ground arith in
    let known = h r.key in
    let same = decreases-smaller r.seq (last_of r.key before) in
    let next : (observe r s).ordering ≡ pos (n + bump) =
      ground (arith, known, same, add64-pos n 1) in
    observe_all-ordering rs (r ∷ before) (observe r s) (n + bump)
      (λ k. ground (arith, h k, lookup-insert r.key k r.seq s.last_seq)) next (omega arith)
    ∙ ap pos (omega arith)

-- The order of a log: by partition, and within a partition by offset.
abbrev pub InLogOrder : LogRecord → LogRecord → Type 0
InLogOrder a b =
    ((a.partition ≤ℤ b.partition) × (a.partition ≢ b.partition))
    ⊎ ((a.partition ≡ b.partition) × (a.offset ≤ℤ b.offset))

InLogOrder-trans : (a b c : LogRecord) → InLogOrder a b → InLogOrder b c → InLogOrder a c
InLogOrder-trans a b c (inl h) (inl k) = inl (omega (arith, h.0, k.0), ground (arith, h, k))
InLogOrder-trans a b c (inl h) (inr k) = inl (ground (arith, h, k), ground (arith, h, k))
InLogOrder-trans a b c (inr h) (inl k) = inl (ground (arith, h, k), ground (arith, h, k))
InLogOrder-trans a b c (inr h) (inr k) = inr (h.0 ∙ k.0, ground (arith, h, k))

earlier-InLogOrder : (a b : LogRecord) → earlier a b ≡ true → InLogOrder a b
unfolding earlier
earlier-InLogOrder a b e = elim (Bool-cases (eqb_ℤ a.partition b.partition)) [
  | inl same ↦ inr ((eqb_ℤ_iff a.partition b.partition).0 same, ground (arith, e, same))
  | inr apart ↦ inl (ground (arith, e, apart), ground (arith, e, apart))
]

later-InLogOrder : (a b : LogRecord) → earlier a b ≡ false → InLogOrder b a
unfolding earlier
later-InLogOrder a b e = elim (Bool-cases (eqb_ℤ a.partition b.partition)) [
  | inl same ↦ inr (sym ((eqb_ℤ_iff a.partition b.partition).0 same), ground (arith, e, same))
  | inr apart ↦ inl (ground (arith, e, apart), ground (arith, e, apart))
]

-- For fewer than 2^63 records, and at least one: there is a log of these records, as many of each kind, in
-- which each record precedes only those of later partitions and those of its own at no smaller offsets, and
-- the report counts the records that have a smaller sequence number than the record of the same key before
-- them in that log, which may be a record of another partition.
pub analyze_log-ordering :
    (r : LogRecord) (rs : List LogRecord)
    → length (r ∷ rs) < two63
    → (log : List LogRecord) × ((test : LogRecord → Bool) → tally test log ≡ tally test (r ∷ rs))
      × Sorted InLogOrder log
      × ((analyze_log (r ∷ rs)).ordering_viol ≡ pos (violations [] log))
unfolding analyze_log
analyze_log-ordering r rs b = (
  sort_stable earlier (r ∷ rs),
  λ test. tally-sort_stable test earlier (r ∷ rs),
  sort_stable-Sorted earlier InLogOrder InLogOrder-trans earlier-InLogOrder later-InLogOrder
      (r ∷ rs),
  observe_all-ordering (sort_stable earlier (r ∷ rs)) [] nothing_seen 0 (λ k. unfold lookup in refl)
        refl (omega (arith, length-sort_stable earlier (r ∷ rs)))
      ∙ ap pos (omega arith),
)
