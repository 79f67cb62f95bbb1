-- ===== src/Verify/Report.antt =====
-- core/domain/verify.go: the report of a verification.
use proofload_sh.Prelude.{List, String, ℤ, pos, [], Option, none}

pub data Verdict : Type 0 where
  pass fail unknown : Verdict

-- `VerifyModel`: the checker that is applied, or none.
pub data VerifyModel : Type 0 where
  verify_none reconciliation register list_append kafka_log : VerifyModel

-- The text of an anomaly is kept as its kind and the numbers that its detail and witness print.
pub record Anomaly : Type 0 where
  pub kind : String
  pub detail : List ℤ

-- An undecided verdict, before the checker sets one, is `none`.
pub record VerifyReport : Type 0 where
  pub model : VerifyModel
  pub verdict : Option Verdict
  pub anomalies : List Anomaly
  pub checked : ℤ
  pub lost : ℤ
  pub duplicated : ℤ
  pub ordering_viol : ℤ
  pub converged_in : ℤ
  pub max_staleness : ℤ

abbrev pub empty_report : VerifyReport
empty_report = record {
  model = verify_none;
  verdict = none;
  anomalies = [];
  checked = pos 0;
  lost = pos 0;
  duplicated = pos 0;
  ordering_viol = pos 0;
  converged_in = pos 0;
  max_staleness = pos 0;
}
