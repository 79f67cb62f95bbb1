-- ===== src/Cli/Verification.antt =====
-- core/cli/verify.go: which checker verifies a run, what is recorded for it, and what it reads. A model is its
-- text, as in the source. The file that was recorded, whether a file operation succeeds, what the driver's own
-- verifier answers, and what the two outside checkers answer are arguments.
pub mod Committed
use proofload_sh.Prelude.{
  ℕ, Bool, true, false, not, ◌&&◌, ◌||◌, Option, none, some, List, [], ◌∷◌, ◌++◌, if◌then◌else◌, ℤ,
  pos, String, ◌==◌, string_eq, Dict,
}
use proofload_sh.Workload.{Workload, OpSpec, Operation}
use proofload_sh.Verify.Report.{VerifyReport}
use proofload_sh.Verify.Checksum.{checksum}
use proofload_sh.Verify.Log as Log
use proofload_sh.Verify.Log.{WriteRecord, read_log}
use proofload_sh.Verify.Reconcile.{Options}
use proofload_sh.Verify.History as History
use proofload_sh.Verify.History.{read_history}
use proofload_sh.Verify.Register as Register
use proofload_sh.Verify.Register.{check_register}
use proofload_sh.Verify.Elle.{EdnLine, write_elle_edn, run_elle}

-- `resolveVerifyModel`
pub resolve_verify_model : (flag declared : String) → String
resolve_verify_model flag declared = if flag == "" then declared else flag

pub has_op : String → List OpSpec → Bool
has_op name [] = false
has_op name (op ∷ ops) = op.type == name || has_op name ops

-- `pickReadOp`
pub pick_read_op : List OpSpec → String
unfolding has_op
pick_read_op ops =
    if has_op "read" ops
    then "read"
    else if has_op "r" ops
    then "r"
    else if has_op "get" ops
    then "get"
    else "read"

-- `verification`: what is recorded.
pub data Recording : Type 0 where
  nothing : Recording
  expectations : (read_op : String) → Recording
  history : Recording

abbrev pub when_opened : (created opened : Bool) → Recording → Option Recording
when_opened created opened r = if created && opened then some r else none

-- `newVerification`: `none` is an error of the temporary file or of its writer.
unfoldable pub new_verification : String → List OpSpec → (created opened : Bool) → Option Recording
unfolding pick_read_op
new_verification model ops created opened =
    if model == "reconciliation"
    then when_opened created opened (expectations (pick_read_op ops))
    else if model == "register" || model == "list-append"
    then when_opened created opened history
    else some nothing

abbrev is_empty : List ℕ → Bool
is_empty [] = true
is_empty (x ∷ xs) = false

-- `writeLogObserver.Observe`: the record that is written for an operation, if any.
pub committed_write : Operation → (failed : Bool) → Option WriteRecord
unfolding checksum
committed_write op failed =
    if failed || is_empty op.value
    then none
    else some (record { key = op.key; checksum = checksum op.value; seq = op.seq })

abbrev pub line_of : Option WriteRecord → List Log.Line
line_of none = []
line_of (some r) = Log.written r ∷ []

-- The lines that the observed operations leave in the log, when every write to it succeeds.
pub log_lines : List (Operation × Bool) → List Log.Line
unfolding committed_write
log_lines [] = []
log_lines ((op, failed) ∷ ops) = line_of (committed_write op failed) ++ log_lines ops

-- What `run` returns: no report, a report, the report of a model that has no checker, or an error.
pub data Verified : Type 0 where
  not_selected failed : Verified
  reported : VerifyReport → Verified
  unsupported : (model : String) → Verified

-- What the files of a run hold: the lines of the log or of the history, and whether the operations on them
-- succeed.
pub record Recorded : Type 0 where
  pub closes : Bool
  pub scan_fails : Bool
  pub log : List Log.Line
  pub events : List History.Line
  pub edn_written : Bool

-- The checkers: `Reconcile` of the target for a log, Porcupine, and the checker for the written history.
module _ (reconcile_log : Dict ℤ WriteRecord → Option VerifyReport)
    (porcupine : List Register.Operation → Register.CheckResult)
    (elle : List EdnLine → Option (List ℕ)) where
  -- `verification.reconcile`
  pub reconcile_run : Recorded → Verified
  reconcile_run f =
      let checked : Verified = elim (read_log f.scan_fails f.log) [
        | Log.err e ↦ failed
        | Log.ok log ↦ (elim (reconcile_log log) [ none ↦ failed | some rep ↦ reported rep ])
      ] in
      if f.closes then checked else failed

  -- `checkRegister`
  pub check_register_run : Recorded → Verified
  check_register_run f =
      let checked : Verified = elim (read_history f.scan_fails f.events) [
        | Log.err e ↦ failed
        | Log.ok h ↦ reported (check_register porcupine h)
      ] in
      if f.closes then checked else failed

  -- `checkListAppend`
  pub check_list_append_run : Recorded → Verified
  check_list_append_run f =
      let checked : Verified = elim (read_history f.scan_fails f.events) [
        | Log.err e ↦ failed
        | Log.ok h ↦ if f.edn_written then reported (run_elle (elle (write_elle_edn h))) else failed
      ] in
      if f.closes then checked else failed

  -- `verification.run`: `native` is the model of the driver's own verifier, if it has one, with its report.
  pub run : (native : Option (String × Option VerifyReport)) → String → Recorded → Verified
  unfolding reconcile_run check_register_run check_list_append_run
  run native model f =
      let checked : Verified =
        if model == "reconciliation"
        then reconcile_run f
        else if model == "register"
        then check_register_run f
        else if model == "list-append"
        then check_list_append_run f
        else unsupported model in
      let verified : Verified = elim native [
        | none ↦ checked
        | some (own, report) ↦
            if own == model
            then (elim report [ none ↦ failed | some rep ↦ reported rep ])
            else checked
      ] in
      if model == "" then not_selected else verified
