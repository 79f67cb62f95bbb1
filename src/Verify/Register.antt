-- ===== src/Verify/Register.antt =====
-- core/verify/porcupine.go: the check of a history key by key. The Porcupine checker is not part of the
-- repository; its answer for the operations of a key is an argument. The witness of an anomaly, a trace of at
-- most 33 operations, is left out.

pub mod Operations
pub mod Verdicts
pub mod Examples
use proofload_sh.Prelude.{
  ℕ, Bool, true, false, Option, none, some, List, [], ◌∷◌, ◌++◌, if◌then◌else◌, ℤ, pos, length, eqb,
}
use proofload_sh.Machine.{add64}
use proofload_sh.Verify.Report.{
  VerifyReport, Anomaly, Verdict, pass, fail, unknown, register, empty_report,
}
use proofload_sh.Verify.History.{
  Event, Family, read, write, append, other, History, by_key_of, keys,
}

-- `regInput`
pub record RegInput : Type 0 where
  pub write : Bool
  pub key : ℤ
  pub value : ℕ

-- The model's `Step`: whether the operation is legal, and the next state.
pub step : ℕ → RegInput → ℕ → Bool × ℕ
step state input output = if input.write then (true, input.value) else (eqb output state, state)

-- The fields of porcupine.Operation.
pub record Operation : Type 0 where
  pub client_id : ℤ
  pub input : RegInput
  pub output : ℕ
  pub call : ℤ
  pub return : ℤ

pub register_op : Event → Family → List Operation
register_op e write =
    record {
      client_id = e.process;
      input = record { write = true; key = e.key; value = e.w_val };
      output = 0;
      call = e.invoke;
      return = e.complete;
    }
    ∷ []
register_op e read =
    record {
      client_id = e.process;
      input = record { write = false; key = e.key; value = 0 };
      output = e.r_val;
      call = e.invoke;
      return = e.complete;
    }
    ∷ []
register_op e append = []
register_op e other = []

-- `registerOps`
pub register_ops : List Event → List Operation
unfolding register_op
register_ops [] = []
register_ops (e ∷ es) = register_op e e.family ++ register_ops es

-- porcupine.CheckResult
pub data CheckResult : Type 0 where
  legal illegal undecided : CheckResult

-- The report and the two flags of the loop of `CheckRegister`.
pub record Progress : Type 0 where
  pub report : VerifyReport
  pub saw_illegal : Bool
  pub saw_unknown : Bool

pub mark : ℤ → CheckResult → Progress → Progress
mark key legal p = p
mark key illegal p = record p {
  saw_illegal = true;
  report = record p.report {
    ordering_viol = add64 p.report.ordering_viol (pos 1);
    anomalies = p.report.anomalies ++ record { kind = "non-linearizable"; detail = key ∷ [] } ∷ [];
  };
}
mark key undecided p = record p {
  saw_unknown = true;
  report = record p.report {
    anomalies = p.report.anomalies ++ record { kind = "unknown"; detail = key ∷ [] } ∷ [];
  };
}

module _ (check : List Operation → CheckResult) where
  -- The answer for the operations of a key; a key without any is passed over.
  pub check_ops : List Operation → CheckResult
  check_ops [] = legal
  check_ops (o ∷ ops) = check (o ∷ ops)

  -- The loop of `CheckRegister` over the keys.
  pub check_keys : History → List ℤ → Progress → Progress
  unfolding mark check_ops
  check_keys h [] p = p
  check_keys h (k ∷ ks) p = check_keys h ks (mark k (check_ops (register_ops (by_key_of k h))) p)

  -- `CheckRegister`
  pub check_register : History → VerifyReport
  unfolding check_keys
  check_register h =
      let start : Progress = record {
        report = record empty_report {
          model = register;
          verdict = some pass;
          checked = pos (length (keys h));
        };
        saw_illegal = false;
        saw_unknown = false;
      } in
      let p = check_keys h (keys h) start in
      record p.report {
        verdict =
            if p.saw_illegal
            then some fail
            else if p.saw_unknown
            then some unknown
            else p.report.verdict;
      }
