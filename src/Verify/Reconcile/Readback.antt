-- ===== src/Verify/Reconcile/Readback.antt =====
-- What the read-back reports: one anomaly for each key that is not intact, and the number of lost keys.
use proofload_sh.Prelude.{
  ℕ, ◌+◌, ◌<◌, ◌≡◌, ◌↔◌, refl, ap, ◌∙◌, arith, Bool, true, false, not, ◌||◌, List, [], ◌∷◌, All,
  length, length-append, ℤ, pos, eqb,
}
use proofload_sh.Machine.{two63, add64-pos}
use proofload_sh.Verify.Report.{VerifyReport}
use proofload_sh.Verify.Checksum.{checksum}
use proofload_sh.Verify.Log.{WriteRecord}
use proofload_sh.Verify.Reconcile.{OpResult, coerce_bytes, check_key, read_back}

-- The key was read back without an error, and its bytes hash to the recorded checksum.
pub record Intact (res : OpResult) (want : WriteRecord) : Type 0 where
  pub read : res.failed ≡ false
  pub present : (coerce_bytes res.observed).1 ≡ true
  pub same : checksum (coerce_bytes res.observed).0 ≡ want.checksum

-- The read failed or found nothing.
abbrev pub is_lost : OpResult → Bool
is_lost res = res.failed || not (coerce_bytes res.observed).1

abbrev pub is_bad : OpResult → WriteRecord → Bool
is_bad res want = is_lost res || not (eqb (checksum (coerce_bytes res.observed).0) want.checksum)

pub is_bad-Intact :
    (res : OpResult) (want : WriteRecord) → (is_bad res want ≡ false) ↔ Intact res want
is_bad-Intact res want = (
  λ h. record { read = ground arith; present = ground arith; same = ground arith },
  λ i. ground (arith, i.read, i.present, i.same),
)

abbrev pub one_if : Bool → ℕ
one_if true = 1
one_if false = 0

check_key-counts :
    (res : OpResult) (key : ℤ) (want : WriteRecord) (r : VerifyReport) (n : ℕ)
    → r.lost ≡ pos n
    → n + 1 < two63
    → (length (check_key res key want r).anomalies ≡ length r.anomalies + one_if (is_bad res want))
      × ((check_key res key want r).lost ≡ pos (n + one_if (is_lost res)))
unfolding check_key
check_key-counts res key want r n e b = (
  ground (
    arith,
    length-append r.anomalies (record { kind = "data-loss"; detail = key ∷ [] } ∷ []),
    length-append r.anomalies (
        record {
          kind = "corruption";
          detail = key ∷ pos (checksum (coerce_bytes res.observed).0) ∷ pos want.checksum ∷ [];
        }
        ∷ []),
  ),
  ground (arith, add64-pos n 1),
)

module _ (execute : ℤ → OpResult) where
  abbrev pub count_lost : List (ℤ × WriteRecord) → ℕ
  count_lost [] = 0
  count_lost ((k, w) ∷ es) = one_if (is_lost (execute k)) + count_lost es

  abbrev pub count_bad : List (ℤ × WriteRecord) → ℕ
  count_bad [] = 0
  count_bad ((k, w) ∷ es) = one_if (is_bad (execute k) w) + count_bad es

  abbrev pub AllIntact : List (ℤ × WriteRecord) → Type 0
  AllIntact = All (λ (e : ℤ × WriteRecord). Intact (execute e.0) e.1)

  pub read_back-counts :
      (es : List (ℤ × WriteRecord)) (r : VerifyReport) (n : ℕ)
      → r.lost ≡ pos n
      → n + length es < two63
      → (length (read_back execute es r).anomalies ≡ length r.anomalies + count_bad es)
        × ((read_back execute es r).lost ≡ pos (n + count_lost es))
  unfolding read_back
  read_back-counts [] r n e b = (omega arith, e ∙ ap pos (omega arith))
  read_back-counts ((k, w) ∷ es) r n e b =
      let one = check_key-counts (execute k) k w r n e (omega arith) in
      let small : one_if (is_lost (execute k)) < 2 = ground arith in
      let rest =
        read_back-counts es (check_key (execute k) k w r) (n + one_if (is_lost (execute k))) one.1
          (omega arith) in
      (omega (arith, one.0, rest.0), rest.1 ∙ ap pos (omega arith))

  pub count_bad-AllIntact : (es : List (ℤ × WriteRecord)) → (count_bad es ≡ 0) ↔ AllIntact es
  count_bad-AllIntact [] = (λ h. tt, λ a. refl)
  count_bad-AllIntact ((k, w) ∷ es) = (
    λ h.
        ((is_bad-Intact (execute k) w).0 (ground arith), (count_bad-AllIntact es).0 (ground arith)),
    λ a.
        let fine = (is_bad-Intact (execute k) w).1 a.0 in
        let rest = (count_bad-AllIntact es).1 a.1 in ground (arith, fine, rest),
  )
