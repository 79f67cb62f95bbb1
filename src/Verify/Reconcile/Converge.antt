-- ===== src/Verify/Reconcile/Converge.antt =====
-- Replicas agree exactly when all answers hash alike, and the polling ends.
use proofload_sh.Prelude.{
  ℕ, ◌≡◌, ◌↔◌, refl, arith, true, List, [], ◌∷◌, All, ℤ, Option, none, some, leb_ℤ, ◌++◌, is_some,
}
use proofload_sh.Verify.Checksum.{checksum}
use proofload_sh.Verify.Reconcile.{
  Observed, coerce_bytes, agree_with, nodes_agree, Poll, converge_key,
}

-- The checksum of a replica's answer.
abbrev pub sum_of : Observed → ℕ
sum_of o = checksum (coerce_bytes o).0

pub agree_with-All :
    (first : ℕ) (os : List (Option Observed))
    → (agree_with first os ≡ some true)
      ↔ All (λ (o : Option Observed). (v : Observed) × (o ≡ some v) × (sum_of v ≡ first)) os
unfolding agree_with
agree_with-All first [] = (λ h. tt, λ a. refl)
agree_with-All first (none ∷ os) = (λ h. cc, λ a. cc (a.0.1))
agree_with-All first (some v ∷ os) = (
  λ h.
      let here : sum_of v ≡ first = ground arith in
      ((v, refl, here), (agree_with-All first os).0 (ground arith)),
  λ a. let rest = (agree_with-All first os).1 a.1 in ground (arith, a.0.1, a.0.2, rest),
)

-- The replicas of a key agree exactly when every one answers and all answers have one checksum.
pub nodes_agree-All :
    (v : Observed) (os : List (Option Observed))
    → (nodes_agree (some v ∷ os) ≡ some true)
      ↔ All (λ (o : Option Observed). (w : Observed) × (o ≡ some w) × (sum_of w ≡ sum_of v)) os
unfolding nodes_agree
nodes_agree-All v os = agree_with-All (sum_of v) os

-- The polling of a key returns by the first poll at which the clock has reached the deadline, whatever the
-- replicas answered at the polls before.
pub converge_key_ends :
    (timeout : ℤ) (before after : List Poll) (p : Poll)
    → leb_ℤ timeout p.elapsed ≡ true
    → is_some (converge_key timeout (before ++ p ∷ after)) ≡ true
unfolding converge_key
converge_key_ends timeout [] after p h = ground arith
converge_key_ends timeout (q ∷ before) after p h =
    let rest = converge_key_ends timeout before after p h in ground (arith, rest)
