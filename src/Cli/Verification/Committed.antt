-- ===== src/Cli/Verification/Committed.antt =====
-- The log of a run expects the committed writes.
use proofload_sh.Prelude.{
  ℕ, suc, subst, ◌∙◌, ◌≡◌, refl, ap, Bool, true, false, arith, Option, none, some, List, [], ◌∷◌,
  ◌++◌, ℤ, Dict, lookup, int_eq,
}
use proofload_sh.Verify.Checksum.{checksum}
use proofload_sh.Workload.{Operation}
use proofload_sh.Verify.Log.{WriteRecord, Result, ok, Line, read_log, scan, keep_record}
use proofload_sh.Verify.Log.LastWrite.{Held, records, read_log-Held}
use proofload_sh.Cli.Verification.{committed_write, line_of, log_lines}

abbrev pub record_of : Option WriteRecord → List WriteRecord
record_of none = []
record_of (some r) = r ∷ []

-- A write of some bytes under its key, with its sequence number.
abbrev write_of : Operation → List ℕ → List WriteRecord
write_of op [] = []
write_of op (b ∷ bs) = record { key = op.key; checksum = checksum (b ∷ bs); seq = op.seq } ∷ []

-- The writes that committed, in the order in which they were observed: those of the operations that carry
-- bytes and did not fail.
abbrev pub committed : List (Operation × Bool) → List WriteRecord
committed [] = []
committed ((op, true) ∷ ops) = committed ops
committed ((op, false) ∷ ops) = write_of op op.value ++ committed ops

records-line_of :
    (o : Option WriteRecord) (ls : List Line)
    → records (line_of o ++ ls) ≡ record_of o ++ records ls
records-line_of none ls = refl
records-line_of (some r) ls = refl

-- What is recorded of an operation is the write that it committed.
committed_write-written :
    (op : Operation) (v : List ℕ)
    → op.value ≡ v
    → record_of (committed_write op false) ≡ write_of op v
unfolding committed_write
committed_write-written op [] e = ground (arith, e)
committed_write-written op (b ∷ bs) e = ground (arith, e)

committed_write-failed : (op : Operation) → committed_write op true ≡ none
unfolding committed_write
committed_write-failed op = refl

records-log_lines : (ops : List (Operation × Bool)) → records (log_lines ops) ≡ committed ops
unfolding log_lines
records-log_lines [] = refl
records-log_lines ((op, true) ∷ ops) =
    ap (λ o. records (line_of o ++ log_lines ops)) (committed_write-failed op)
    ∙ records-log_lines ops
records-log_lines ((op, false) ∷ ops) =
    records-line_of (committed_write op false) (log_lines ops)
    ∙ ap (λ (rs : List WriteRecord). rs ++ records (log_lines ops))
        (committed_write-written op op.value refl)
    ∙ ap (λ (rs : List WriteRecord). write_of op op.value ++ rs) (records-log_lines ops)

abbrev IsRead : Result (Dict ℤ WriteRecord) → Type 0
IsRead r = (d : Dict ℤ WriteRecord) × (r ≡ ok d)

scan-log_lines :
    (ops : List (Operation × Bool)) (n : ℕ) (m : Dict ℤ WriteRecord)
    → IsRead (scan false n (log_lines ops) m)
unfolding log_lines scan
scan-log_lines [] n m = (m, refl)
scan-log_lines ((op, failed) ∷ ops) n m =
    elim (committed_write op failed)
      as (λ o. IsRead (scan false n (line_of o ++ log_lines ops) m)) [
        | none ↦ scan-log_lines ops n m
        | some r ↦ scan-log_lines ops (suc n) (keep_record r m)
      ]

-- The log that the observers of a run leave is read without an error, and it expects of a key exactly what
-- the committed writes to it say, the writes of the operations that carry bytes and did not fail: nothing if
-- there is none, and otherwise the checksum of a committed write to it that no other exceeds in sequence
-- number.
pub read_log-committed :
    (ops : List (Operation × Bool))
    → (d : Dict ℤ WriteRecord) × (read_log false (log_lines ops) ≡ ok d)
      × ((k : ℤ) → Held k (committed ops) (lookup k d))
unfolding read_log
read_log-committed ops =
    let (d, whole) = scan-log_lines ops 1 [] in
    (
      d,
      whole,
      λ k.
          subst (λ (rs : List WriteRecord). Held k rs (lookup k d)) (records-log_lines ops)
            (read_log-Held false (log_lines ops) k whole),
    )
