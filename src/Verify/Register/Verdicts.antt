-- ===== src/Verify/Register/Verdicts.antt =====
-- The verdict of `CheckRegister` on a history that was read from a file.
use proofload_sh.Prelude.{
  ◌≡◌, ◌↔◌, refl, sym, ap, subst, ◌∙◌, arith, Bool, true, false, ◌||◌, Option, some, List, [], ◌∷◌,
  map, if◌then◌else◌, ℤ, eqb_ℤ, eqb_ℤ_iff, keep, Bool-cases, inl, inr, pos, length,
}
use proofload_sh.Prelude.Sort.{tally}
use proofload_sh.Verify.Report.{Verdict, pass, fail, unknown, register, empty_report}
use proofload_sh.Verify.Log.{ok}
use proofload_sh.Verify.History.{Event, Line, History, read_history, by_key_of, keys}
use proofload_sh.Verify.History.Index.{IsIndexed, of_key, decodes, events_in, read_history-Read}
use proofload_sh.Verify.History.Keys.{is_key, some_event, keys-Ascending}
use proofload_sh.Verify.Register.Operations.{on_register, as_operation, register_ops-map}
use proofload_sh.Verify.Register.{
  Operation, register_ops, CheckResult, legal, illegal, undecided, Progress, mark, check_ops,
  check_keys, check_register,
}

abbrev pub is_illegal : CheckResult → Bool
is_illegal illegal = true
is_illegal _ = false

abbrev pub is_undecided : CheckResult → Bool
is_undecided undecided = true
is_undecided _ = false

keep-none : (k : ℤ) (es : List Event) → some_event k es ≡ false → keep (of_key k) es ≡ []
keep-none k [] h = refl
keep-none k (e ∷ es) h = let rest = keep-none k es in ground (arith, rest)

legal_of : (r : CheckResult) → is_illegal r ≡ false → is_undecided r ≡ false → r ≡ legal
legal_of legal i u = refl
legal_of illegal i u = cc
legal_of undecided i u = cc

illegal_of : (r : CheckResult) → is_illegal r ≡ true → r ≡ illegal
illegal_of legal i = cc
illegal_of illegal i = refl
illegal_of undecided i = cc

abbrev verdict_of : Bool → Bool → Option Verdict
verdict_of i u = some (if i then fail else if u then unknown else pass)

passing : (i u : Bool) → verdict_of i u ≡ some pass → (i ≡ false) × (u ≡ false)
passing false false e = (refl, refl)
passing false true e = cc
passing true u e = cc

failing : (i u : Bool) → verdict_of i u ≡ some fail → i ≡ true
failing true u e = refl
failing false true e = cc
failing false false e = cc

module _ (check : List Operation → CheckResult) where
  -- The answer for a key of a history.
  abbrev answer : History → ℤ → CheckResult
  answer h k = check_ops check (register_ops (by_key_of k h))

  abbrev some_answer : (CheckResult → Bool) → History → List ℤ → Bool
  some_answer test h [] = false
  some_answer test h (k ∷ ks) = test (answer h k) || some_answer test h ks

  some_answer-key :
      (test : CheckResult → Bool) (h : History) (ks : List ℤ)
      → some_answer test h ks ≡ true
      → (k : ℤ) × (test (answer h k) ≡ true)
  some_answer-key test h [] e = cc
  some_answer-key test h (k ∷ ks) e = elim (Bool-cases (test (answer h k))) [
    | inl found ↦ (k, found)
    | inr missed ↦ some_answer-key test h ks (ground (arith, missed, e))
  ]

  no_answer-key :
      (test : CheckResult → Bool) (h : History) (ks : List ℤ) (k : ℤ)
      → some_answer test h ks ≡ false
      → tally (is_key k) ks ≡ 1
      → test (answer h k) ≡ false
  no_answer-key test h [] k e t = ground (arith, t)
  no_answer-key test h (i ∷ ks) k e t = elim (Bool-cases (eqb_ℤ i k)) [
    | inl same ↦ subst (λ j. test (answer h j) ≡ false) ((eqb_ℤ_iff i k).0 same) (ground (arith, e))
    | inr differ ↦ no_answer-key test h ks k (ground (arith, e)) (ground (arith, t, differ))
  ]

  unflagged :
      (h : History) (ks : List ℤ) (test : CheckResult → Bool)
      → test legal ≡ false
      → ((k : ℤ) → answer h k ≡ legal)
      → some_answer test h ks ≡ false
  unflagged h [] test l all = refl
  unflagged h (k ∷ ks) test l all =
      let rest = unflagged h ks test l all in
      let here = ap test (all k) ∙ l in ground (arith, here, rest)

  mark-flags :
      (k : ℤ) (r : CheckResult) (p : Progress)
      → ((mark k r p).saw_illegal ≡ (is_illegal r || p.saw_illegal))
        × ((mark k r p).saw_unknown ≡ (is_undecided r || p.saw_unknown))
        × ((mark k r p).report.verdict ≡ p.report.verdict)
  unfolding mark
  mark-flags k legal p = (refl, refl, refl)
  mark-flags k illegal p = (refl, refl, refl)
  mark-flags k undecided p = (refl, refl, refl)

  check_keys-flags :
      (h : History) (ks : List ℤ) (p : Progress)
      → ((check_keys check h ks p).saw_illegal ≡ (p.saw_illegal || some_answer is_illegal h ks))
        × ((check_keys check h ks p).saw_unknown ≡ (p.saw_unknown || some_answer is_undecided h ks))
        × ((check_keys check h ks p).report.verdict ≡ p.report.verdict)
  unfolding check_keys
  check_keys-flags h [] p = (ground arith, ground arith, refl)
  check_keys-flags h (k ∷ ks) p =
      let q = mark k (answer h k) p in
      let rest = check_keys-flags h ks q in
      let here = mark-flags k (answer h k) p in
      (ground (arith, rest, here), ground (arith, rest, here), ground (arith, rest, here))

  -- When no key that is listed has an answer, no key has it.
  module _ (h : History) (indexed : IsIndexed h)
      (listed : (k : ℤ)
        → tally (is_key k) (keys h) ≡ (if some_event k h.events then 1 else 0)) where
    answer-unlisted : (k : ℤ) → some_event k h.events ≡ false → answer h k ≡ legal
    answer-unlisted k e =
        ap (λ es. check_ops check (register_ops es)) (indexed.keyed k ∙ keep-none k h.events e)
        ∙ (unfold check_ops register_ops in refl)

    no_answer :
        (test : CheckResult → Bool) (k : ℤ)
        → test legal ≡ false
        → some_answer test h (keys h) ≡ false
        → test (answer h k) ≡ false
    no_answer test k l e = elim (Bool-cases (some_event k h.events)) [
      | inl has ↦ no_answer-key test h (keys h) k e (listed k ∙ ground (arith, has))
      | inr lacks ↦ ap test (answer-unlisted k lacks) ∙ l
    ]

  check_register-verdict :
      (h : History)
      → (check_register check h).verdict
        ≡ verdict_of (some_answer is_illegal h (keys h)) (some_answer is_undecided h (keys h))
  unfolding check_register
  check_register-verdict h =
      let start : Progress = record {
        report = record empty_report {
          model = register;
          verdict = some pass;
          checked = pos (length (keys h));
        };
        saw_illegal = false;
        saw_unknown = false;
      } in
      let f = check_keys-flags h (keys h) start in ground (arith, f)

  -- The answer for the events of one key among those of a file that write or read a register.
  abbrev pub answer_for : List Event → ℤ → CheckResult
  answer_for es k = check_ops check (map as_operation (keep on_register (keep (of_key k) es)))

  verdicts :
      (h : History)
      → IsIndexed h
      → ((k : ℤ) → tally (is_key k) (keys h) ≡ (if some_event k h.events then 1 else 0))
      → (((check_register check h).verdict ≡ some pass) ↔ ((k : ℤ) → answer h k ≡ legal))
        × (((check_register check h).verdict ≡ some fail) ↔ ((k : ℤ) × (answer h k ≡ illegal)))
  verdicts h indexed listed =
      let verdict = check_register-verdict h in
      let none_illegal = λ (k : ℤ). no_answer h indexed listed is_illegal k refl in
      let none_undecided = λ (k : ℤ). no_answer h indexed listed is_undecided k refl in
      let illegal_flag = some_answer is_illegal h (keys h) in
      let undecided_flag = some_answer is_undecided h (keys h) in
      (
        (
          λ e k.
              let f = passing illegal_flag undecided_flag (sym verdict ∙ e) in
              legal_of (answer h k) (none_illegal k f.0) (none_undecided k f.1),
          λ all.
              let i = unflagged h (keys h) is_illegal refl all in
              let u = unflagged h (keys h) is_undecided refl all in ground (arith, verdict, i, u),
        ),
        (
          λ e.
              let (k, i) =
                some_answer-key is_illegal h (keys h)
                  (failing illegal_flag undecided_flag (sym verdict ∙ e)) in
              (k, illegal_of (answer h k) i),
          λ (k, e). elim (Bool-cases illegal_flag) [
            | inl flagged ↦ ground (arith, verdict, flagged)
            | inr missed ↦ cc (none_illegal k missed, ap is_illegal e)
          ],
        ),
      )

-- For a file whose lines are blank or events, and whatever the checker answers: `CheckRegister` passes the
-- history that is read from it exactly when the writes and reads of every key, in the order of the file, are
-- answered as linearizable or are none, and fails it exactly when those of some key are answered as illegal.
pub check_register_verdict :
    (check : List Operation → CheckResult) (ls : List Line)
    → decodes ls ≡ true
    → (h : History) × (read_history false ls ≡ ok h)
      × (((check_register check h).verdict ≡ some pass)
          ↔ ((k : ℤ) → answer_for check (events_in ls) k ≡ legal))
      × (((check_register check h).verdict ≡ some fail)
          ↔ ((k : ℤ) × (answer_for check (events_in ls) k ≡ illegal)))
check_register_verdict check ls d =
    let r = read_history-Read ls d in
    let h = r.history in
    let v = verdicts check h r.indexed (keys-Ascending false ls h r.read).1 in
    let same : (k : ℤ) → answer check h k ≡ answer_for check (events_in ls) k = λ k.
      ap (λ es. check_ops check (register_ops es))
        (r.indexed.keyed k ∙ ap (keep (of_key k)) r.events)
      ∙ ap (check_ops check) (register_ops-map (keep (of_key k) (events_in ls))) in
    (
      h,
      r.read,
      (λ e k. sym (same k) ∙ v.0.0 e k, λ all. v.0.1 (λ k. same k ∙ all k)),
      (λ e. let (k, i) = v.1.0 e in (k, sym (same k) ∙ i), λ (k, e). v.1.1 (k, same k ∙ e)),
    )
