-- ===== src/Verify/Examples.antt =====
-- The theorems on the verification for small logs and answers.
use proofload_sh.Prelude.{
  ◌≡◌, ◌↔◌, refl, arith, true, false, List, [], ◌∷◌, ◌++◌, some, ℤ, pos, lookup, insert, int_eq,
  is_some, inl, inr, All, Dict,
}
use proofload_sh.Verify.Report.{pass}
use proofload_sh.Verify.Log.{WriteRecord, Line, blank, written, ok, read_log, scan, keep_record}
use proofload_sh.Verify.Log.LastWrite.{Held, records, read_log-Held}
use proofload_sh.Verify.Checksum.{checksum}
use proofload_sh.Verify.Reconcile.{
  bytes, nothing, OpResult, Options, Poll, Reconciled, converge_key, sample_keys, reconcile,
}
use proofload_sh.Verify.Reconcile.Readback.{AllIntact, count_lost}
use proofload_sh.Verify.Reconcile.Converge.{converge_key_ends}
use proofload_sh.Verify.Reconcile.Agreement.{AgreesInTime}
use proofload_sh.Verify.Reconcile.Outcome.{compared, reconcile_verdict}

abbrev write_of : ℤ → ℤ → WriteRecord
write_of key seq = record { key = key; checksum = 5; seq = seq }

abbrev three_lines : List Line
three_lines =
    written (write_of (pos 1) (pos 1))
    ∷ blank
    ∷ written (write_of (pos 1) (pos 3))
    ∷ written (write_of (pos 1) (pos 2))
    ∷ []

abbrev one_entry : Dict ℤ WriteRecord
one_entry = (pos 1, write_of (pos 1) (pos 3)) ∷ []

read_three : read_log false three_lines ≡ ok one_entry
unfolding read_log scan keep_record lookup insert
read_three = refl

read_log-Held_example : Held (pos 1) (records three_lines) (lookup (pos 1) one_entry)
read_log-Held_example = read_log-Held false three_lines (pos 1) read_three

abbrev disagreeing : ℤ → Poll
disagreeing elapsed = record {
  answers = some (bytes (1 ∷ [])) ∷ some nothing ∷ [];
  elapsed = elapsed;
  cancelled = false;
}

converge_key_ends_example :
    is_some (converge_key (pos 9) ((disagreeing (pos 2) ∷ []) ++ disagreeing (pos 10) ∷ [])) ≡ true
converge_key_ends_example =
    converge_key_ends (pos 9) (disagreeing (pos 2) ∷ []) [] (disagreeing (pos 10)) refl

-- The replicas differ at first, agree later, and the clock would reach the deadline after that.
abbrev agreeing_later : ℤ → List Poll
agreeing_later key =
    disagreeing (pos 3)
    ∷ record {
      answers = some (bytes (1 ∷ [])) ∷ some (bytes (1 ∷ [])) ∷ [];
      elapsed = pos 6;
      cancelled = false;
    }
    ∷ disagreeing (pos 12)
    ∷ []

-- A driver that answers every read with the bytes that were written.
abbrev answer_written : ℤ → OpResult
answer_written key = record { observed = bytes (1 ∷ []); failed = false }

abbrev written_entry : Dict ℤ WriteRecord
written_entry = (pos 1, record { key = pos 1; checksum = checksum (1 ∷ []); seq = pos 3 }) ∷ []

abbrev sample_one : Options
sample_one = record { convergence_sample = pos 1; convergence_timeout = pos 9 }

reconcile_verdict_example :
    (out : Reconciled) × (reconcile true true answer_written agreeing_later true 3
        (pos 4)
        written_entry
        sample_one
      ≡ some out)
    × ((out.failed ≡ false)
        × (out.report.lost ≡ pos (count_lost answer_written written_entry))
        × ((out.report.verdict ≡ some pass) ↔ (
            AllIntact answer_written written_entry
            × All
                (λ k. AgreesInTime (pos 9) (agreeing_later k))
                (compared true 3 written_entry sample_one))))
unfolding sample_keys
reconcile_verdict_example =
    reconcile_verdict answer_written agreeing_later true 3 (pos 4) true true written_entry
      sample_one (omega arith) (inr (inr (inl refl)), tt)
