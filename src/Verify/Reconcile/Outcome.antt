-- ===== src/Verify/Reconcile/Outcome.antt =====
-- The verdict of `Reconcile`: it passes exactly when every expected key is intact and every sampled key
-- converged.
use proofload_sh.Prelude.{
  ℕ, ◌+◌, ◌<◌, ◌≡◌, ◌↔◌, refl, ap, ◌∙◌, arith, Bool, true, false, not, ◌||◌, List, [], ◌∷◌, All,
  length, length-append, if◌then◌else◌, ℤ, pos, Bool-cases, inl, inr, leb, leb_ℤ, some, none,
  Option, ◌>>=◌, ◌&&◌,
}
use proofload_sh.Machine.{two63}
use proofload_sh.Verify.Report.{VerifyReport, Anomaly, pass}
use proofload_sh.Verify.Log.{WriteRecord}
use proofload_sh.Verify.Reconcile.{
  OpResult, Options, Poll, Converged, Reconciled, fresh_report, converge_key, check_keys,
  check_convergence, sample_keys, diverge, max_ℤ, read_back, set_verdict, is_empty, reconcile,
}
use proofload_sh.Verify.Reconcile.Agreement.{
  AgreesInTime, ReachesDeadline, converge_key-some, converge_key-AgreesInTime,
}
use proofload_sh.Verify.Reconcile.Readback.{
  count_lost, count_bad, AllIntact, read_back-counts, count_bad-AllIntact,
}

abbrev pub is_stale : Converged → Bool
is_stale c = c.failed || not c.converged

abbrev pub one_if : Bool → ℕ
one_if true = 1
one_if false = 0

-- A report after a phase of the check: its anomalies are more by a number that is zero exactly when something
-- holds, and it counts no more losses.
record Noted (Holds : Type 0) (before after : VerifyReport) : Type 0 where
  number : ℕ
  anomalies : length after.anomalies ≡ length before.anomalies + number
  holds : (number ≡ 0) ↔ Holds
  lost : after.lost ≡ before.lost

module _ (polls : ℤ → List Poll) (timeout : ℤ) where
  -- The replicas of all keys agreed in time.
  abbrev AllAgree : List ℤ → Type 0
  AllAgree = All (λ k. AgreesInTime timeout (polls k))

  -- The polling of every key is given until its deadline.
  abbrev AllReach : List ℤ → Type 0
  AllReach = All (λ k. ReachesDeadline timeout (polls k))

  diverge-Noted :
      (k : ℤ) (c : Converged) (r : VerifyReport)
      → converge_key timeout (polls k) ≡ some c
      → Noted (AgreesInTime timeout (polls k)) r (if is_stale c then diverge k timeout r else r)
  unfolding diverge
  diverge-Noted k c r e =
      let agreed = converge_key-AgreesInTime timeout (polls k) c e in
      let more =
        length-append r.anomalies
          (record { kind = "divergence"; detail = k ∷ timeout ∷ [] } ∷ []) in
      record {
        number = one_if (is_stale c);
        anomalies = ground (arith, more);
        holds = (
          λ h. agreed.0 (ground (arith, h), ground (arith, h)),
          λ a. let h = agreed.1 a in ground (arith, h.0, h.1),
        );
        lost = ground arith;
      }

  check_keys-Noted :
      (ks : List ℤ) (stale : ℤ) (r : VerifyReport)
      → AllReach ks
      → (out : ℤ × VerifyReport) × (check_keys polls timeout ks stale r ≡ some out)
        × Noted (AllAgree ks) r out.1
  unfolding check_keys
  check_keys-Noted [] stale r reach = (
    (stale, r),
    refl,
    record { number = 0; anomalies = omega arith; holds = (λ h. tt, λ a. refl); lost = refl },
  )
  check_keys-Noted (k ∷ ks) stale r reach =
      let (c, e) = converge_key-some timeout (polls k) reach.0 in
      let next = if is_stale c then diverge k timeout r else r in
      let here = diverge-Noted k c r e in
      let (out, eq, rest) = check_keys-Noted ks (max_ℤ stale c.took) next reach.1 in
      (
        out,
        rw e eq,
        record {
          number = here.number + rest.number;
          anomalies = omega (arith, here.anomalies, rest.anomalies);
          holds = (
            λ h. (here.holds.0 (omega (arith, h)), rest.holds.0 (omega (arith, h))),
            λ a. omega (arith, here.holds.1 a.0, rest.holds.1 a.1),
          );
          lost = rest.lost ∙ here.lost;
        },
      )

-- The keys whose replicas are compared: none without a cluster, with one node or with no sample.
abbrev pub compared : Bool → ℕ → List (ℤ × WriteRecord) → Options → List ℤ
compared cluster nodes es o =
    if cluster
    then (if leb nodes 1 || leb_ℤ o.convergence_sample (pos 0)
        then []
        else sample_keys es o.convergence_sample)
    else []

module _ (polls : ℤ → List Poll) where
  -- The phase for the keys of a sample, unless it is skipped.
  sampled-Noted :
      (timeout : ℤ) (skip : Bool) (phase : ℤ) (ks : List ℤ) (r : VerifyReport)
      → AllReach polls timeout (if skip then [] else ks)
      → (out : VerifyReport) × ((if skip
            then some r
            else check_keys polls timeout ks (pos 0) r >>= λ (c : ℤ × VerifyReport).
                some (record (c.1) { max_staleness = c.0; converged_in = phase }))
          ≡ some out)
        × Noted (AllAgree polls timeout (if skip then [] else ks)) r out
  sampled-Noted timeout true phase ks r reach = (
    r,
    refl,
    record { number = 0; anomalies = omega arith; holds = (λ h. tt, λ a. refl); lost = refl },
  )
  sampled-Noted timeout false phase ks r reach =
      let (c, eq, noted) = check_keys-Noted polls timeout ks (pos 0) r reach in
      (
        record (c.1) { max_staleness = c.0; converged_in = phase },
        ap
            (λ (o : Option (ℤ × VerifyReport)). o >>= λ (c : ℤ × VerifyReport).
              some (record (c.1) { max_staleness = c.0; converged_in = phase }))
            eq,
        record {
          number = noted.number;
          anomalies = noted.anomalies;
          holds = noted.holds;
          lost = noted.lost;
        },
      )

  check_convergence-Noted :
      (cluster : Bool) (nodes : ℕ) (phase : ℤ) (es : List (ℤ × WriteRecord)) (o : Options)
      (r : VerifyReport)
      → AllReach polls o.convergence_timeout (compared cluster nodes es o)
      → (out : VerifyReport) × ((if cluster
            then check_convergence polls o.convergence_timeout nodes phase es o r
            else some r)
          ≡ some out)
        × Noted (AllAgree polls o.convergence_timeout (compared cluster nodes es o)) r out
  unfolding check_convergence
  check_convergence-Noted false nodes phase es o r reach = (
    r,
    refl,
    record { number = 0; anomalies = omega arith; holds = (λ h. tt, λ a. refl); lost = refl },
  )
  check_convergence-Noted true nodes phase es o r reach =
      sampled-Noted o.convergence_timeout (leb nodes 1 || leb_ℤ o.convergence_sample (pos 0)) phase
        (sample_keys es o.convergence_sample) r reach

is_empty-length : (xs : List Anomaly) → (is_empty xs ≡ true) ↔ (length xs ≡ 0)
is_empty-length [] = (λ h. refl, λ h. refl)
is_empty-length (x ∷ xs) = (λ h. cc, λ h. ground arith)

set_verdict_pass :
    (r : VerifyReport) (n : ℕ)
    → r.lost ≡ pos n
    → n < length r.anomalies + 1
    → ((set_verdict r).verdict ≡ some pass) ↔ (length r.anomalies ≡ 0)
unfolding set_verdict
set_verdict_pass r n e b = (
  λ h. elim (Bool-cases (is_empty r.anomalies)) [
    | inl t ↦ (is_empty-length r.anomalies).0 t
    | inr t ↦ ground arith
  ],
  λ h. let t = (is_empty-length r.anomalies).1 h in ground arith,
)

set_verdict-lost : (r : VerifyReport) → (set_verdict r).lost ≡ r.lost
unfolding set_verdict
set_verdict-lost r = ground arith

module _ (execute : ℤ → OpResult) where
  lost_few : (es : List (ℤ × WriteRecord)) → count_lost execute es < count_bad execute es + 1
  lost_few [] = omega arith
  lost_few ((k, w) ∷ es) = let rest = lost_few es in ground arith

  module _ (polls : ℤ → List Poll) (cluster : Bool) (nodes : ℕ) (phase : ℤ) where
    -- What `Reconcile` returns for fewer than 2^63 expected keys, when the polls of every compared key go on until
    -- one at which the deadline has come: an error and no verdict exactly when the target is not connected or not
    -- prepared; otherwise its report counts the keys that were lost, and its verdict is a pass exactly when
    -- every expected key reads back with the recorded checksum and the replicas of every compared key agree
    -- in time.
    pub reconcile_verdict :
        (connects prepares : Bool) (es : List (ℤ × WriteRecord)) (o : Options)
        → length es < two63
        → All (λ k. ReachesDeadline o.convergence_timeout (polls k)) (compared cluster nodes es o)
        → (out : Reconciled) × (reconcile connects prepares execute polls cluster nodes phase es o
            ≡ some out)
          × (if connects && prepares
              then (out.failed ≡ false)
                × (out.report.lost ≡ pos (count_lost execute es))
                × ((out.report.verdict ≡ some pass) ↔ (
                    AllIntact execute es
                    × All
                        (λ k. AgreesInTime o.convergence_timeout (polls k))
                        (compared cluster nodes es o)))
              else (out.failed ≡ true) × (out.report.verdict ≡ none))
    unfolding reconcile
    reconcile_verdict false prepares es o b reach =
        (record { report = fresh_report es; failed = true }, refl, (refl, refl))
    reconcile_verdict true false es o b reach =
        (record { report = fresh_report es; failed = true }, refl, (refl, refl))
    reconcile_verdict true true es o b reach =
        let counts = read_back-counts execute es (fresh_report es) 0 refl (omega arith) in
        let read = read_back execute es (fresh_report es) in
        let lost : read.lost ≡ pos (count_lost execute es) = counts.1 ∙ ap pos (omega arith) in
        let (end, eq, noted) = check_convergence-Noted polls cluster nodes phase es o read reach in
        let verdict =
          set_verdict_pass end (count_lost execute es) (noted.lost ∙ lost)
            (omega (arith, lost_few es, noted.anomalies, counts.0)) in
        let bads = count_bad-AllIntact execute es in
        let total : length end.anomalies ≡ count_bad execute es + noted.number =
          omega (arith, noted.anomalies, counts.0) in
        (
          record { report = set_verdict end; failed = false },
          ap
              (λ (c : Option VerifyReport). c >>= λ (r : VerifyReport).
                some (record { report = set_verdict r; failed = false }))
              eq,
          (
            refl,
            set_verdict-lost end ∙ noted.lost ∙ lost,
            (
              λ h.
                  let zero = verdict.0 h in
                  (bads.0 (omega (arith, zero, total)), noted.holds.0 (omega (arith, zero, total))),
              λ a. verdict.1 (omega (arith, bads.1 a.0, noted.holds.1 a.1, total)),
            ),
          ),
        )
