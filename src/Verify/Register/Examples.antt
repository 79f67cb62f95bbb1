-- ===== src/Verify/Register/Examples.antt =====
-- The theorem on the verdict for two events of one key, a write and a stale read, and a checker that
-- refuses every history with two operations.
use proofload_sh.Prelude.{◌≡◌, ◌↔◌, refl, true, false, some, List, [], ◌∷◌, ℤ, pos}
use proofload_sh.Verify.Report.{pass, fail}
use proofload_sh.Verify.Log.{ok}
use proofload_sh.Verify.History.{Event, read, write, Line, blank, recorded, History, read_history}
use proofload_sh.Verify.History.Index.{events_in}
use proofload_sh.Verify.Register.{Operation, CheckResult, legal, illegal, check_register}
use proofload_sh.Verify.Register.Verdicts.{answer_for, check_register_verdict}

abbrev pair_refused : List Operation → CheckResult
pair_refused (a ∷ b ∷ ops) = illegal
pair_refused _ = legal

abbrev written : Event
written = record {
  process = pos 0;
  family = write;
  key = pos 7;
  w_val = 5;
  r_val = 0;
  r_list = [];
  invoke = pos 10;
  complete = pos 20;
  ok = true;
}

abbrev file : List Line
file = recorded written ∷ blank ∷ recorded (record written { family = read; r_val = 4 }) ∷ []

check_register_verdict_example :
    (h : History) × (read_history false file ≡ ok h)
    × (((check_register pair_refused h).verdict ≡ some pass)
        ↔ ((k : ℤ) → answer_for pair_refused (events_in file) k ≡ legal))
    × (((check_register pair_refused h).verdict ≡ some fail)
        ↔ ((k : ℤ) × (answer_for pair_refused (events_in file) k ≡ illegal)))
check_register_verdict_example = check_register_verdict pair_refused file refl
