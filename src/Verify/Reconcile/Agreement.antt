-- ===== src/Verify/Reconcile/Agreement.antt =====
-- core/verify/reconcile.go: what the polling of a key returns says about the answers of its replicas.
use proofload_sh.Prelude.{
  ℕ, ◌≡◌, ◌≢◌, ◌↔◌, ◌⊎◌, inl, inr, refl, ap, sym, ◌∙◌, some_injective, Bool, ◌||◌, arith,
  Bool-cases, eqb, ltb_ℤ, pos, true, false, List, [], ◌∷◌, All, ℤ, Option, none, some, leb_ℤ,
}
use proofload_sh.Verify.Reconcile.{Observed, agree_with, nodes_agree, Poll, Converged, converge_key}
use proofload_sh.Verify.Reconcile.Converge.{sum_of, agree_with-All}

-- Every replica answers, and all answers have one checksum.
abbrev pub Alike : List (Option Observed) → Type 0
Alike [] = Unit
Alike (none ∷ os) = ⊥
Alike (some v ∷ os) = All (λ o. (w : Observed) × (o ≡ some w) × (sum_of w ≡ sum_of v)) os

-- An answer with another checksum than this one's comes before any read that fails.
abbrev DiffersFrom : ℕ → List (Option Observed) → Type 0
DiffersFrom first [] = ⊥
DiffersFrom first (none ∷ os) = ⊥
DiffersFrom first (some w ∷ os) = (sum_of w ≢ first) ⊎ DiffersFrom first os

-- Two answers differ, and no read fails before that shows.
abbrev pub Differ : List (Option Observed) → Type 0
Differ [] = ⊥
Differ (none ∷ os) = ⊥
Differ (some v ∷ os) = DiffersFrom (sum_of v) os

-- The replicas agree at a poll that the polling reaches: at every poll before it two answers differ, the time for
-- the polling is not over, and nothing cancels it.
abbrev pub AgreesInTime : ℤ → List Poll → Type 0
AgreesInTime timeout [] = ⊥
AgreesInTime timeout (p ∷ ps) =
    Alike p.answers
    ⊎ ((Differ p.answers
          × (ltb_ℤ (pos 0) timeout ≡ true)
          × (ltb_ℤ p.elapsed timeout ≡ true)
          × (p.cancelled ≡ false))
        × AgreesInTime timeout ps)

-- The clock reaches the deadline at one of the polls.
abbrev pub ReachesDeadline : ℤ → List Poll → Type 0
ReachesDeadline timeout [] = ⊥
ReachesDeadline timeout (p ∷ ps) = (leb_ℤ timeout p.elapsed ≡ true) ⊎ ReachesDeadline timeout ps

-- The key's replicas agreed before the polling ended.
abbrev pub Agreed : Converged → Type 0
Agreed c = (c.failed ≡ false) × (c.converged ≡ true)

nodes_agree-Alike : (os : List (Option Observed)) → (nodes_agree os ≡ some true) ↔ Alike os
unfolding nodes_agree
nodes_agree-Alike [] = (λ h. tt, λ a. refl)
nodes_agree-Alike (none ∷ os) = (λ h. cc, λ a. absurd a)
nodes_agree-Alike (some v ∷ os) = agree_with-All (sum_of v) os

agree_with-DiffersFrom :
    (first : ℕ) (os : List (Option Observed))
    → (agree_with first os ≡ some false) ↔ DiffersFrom first os
unfolding agree_with
agree_with-DiffersFrom first [] = (λ h. cc, λ a. absurd a)
agree_with-DiffersFrom first (none ∷ os) = (λ h. cc, λ a. absurd a)
agree_with-DiffersFrom first (some w ∷ os) =
    let rest = agree_with-DiffersFrom first os in
    elim (Bool-cases (eqb (sum_of w) first)) [
      | inl same ↦ (
        λ h. inr (rest.0 (ground (arith, h, same))),
        λ a. elim a [
          | inl apart ↦ ground (arith, apart, same)
          | inr more ↦ let m = rest.1 more in ground (arith, m, same)
        ],
      )
      | inr apart ↦ (λ h. inl (ground (arith, apart)), λ a. ground (arith, apart))
    ]

nodes_agree-Differ : (os : List (Option Observed)) → (nodes_agree os ≡ some false) ↔ Differ os
unfolding nodes_agree
nodes_agree-Differ [] = (λ h. cc, λ a. absurd a)
nodes_agree-Differ (none ∷ os) = (λ h. cc, λ a. absurd a)
nodes_agree-Differ (some v ∷ os) = agree_with-DiffersFrom (sum_of v) os

answer-cases : (o : Option Bool) → (o ≡ none) ⊎ ((o ≡ some true) ⊎ (o ≡ some false))
answer-cases none = inl refl
answer-cases (some true) = inr (inl refl)
answer-cases (some false) = inr (inr refl)

-- The polling ends at a poll at which the replicas differ, if its time is over or it is cancelled.
abbrev is_over : ℤ → Poll → Bool
is_over timeout p = (leb_ℤ timeout (pos 0) || leb_ℤ timeout p.elapsed) || p.cancelled

converge_key-differ :
    (timeout : ℤ) (p : Poll) (ps : List Poll)
    → nodes_agree p.answers ≡ some false
    → is_over timeout p ≡ false
    → converge_key timeout (p ∷ ps) ≡ converge_key timeout ps
unfolding converge_key
converge_key-differ timeout p ps e h = ground (arith, e, h)

converge_key-over :
    (timeout : ℤ) (p : Poll) (ps : List Poll)
    → nodes_agree p.answers ≡ some false
    → is_over timeout p ≡ true
    → (c : Converged) × (converge_key timeout (p ∷ ps) ≡ some c) × (c.converged ≡ false)
unfolding converge_key
converge_key-over timeout p ps e h =
    elim (Bool-cases (leb_ℤ timeout (pos 0) || leb_ℤ timeout p.elapsed)) [
      | inl t ↦ (
        record { converged = false; took = p.elapsed; failed = false },
        ground (arith, e, t),
        refl,
      )
      | inr t ↦
          let done : p.cancelled ≡ true = ground (arith, h, t) in
          (
            record { converged = false; took = p.elapsed; failed = true },
            ground (arith, e, t, done),
            refl,
          )
    ]

converge_key-failed :
    (timeout : ℤ) (p : Poll) (ps : List Poll)
    → nodes_agree p.answers ≡ none
    → converge_key timeout (p ∷ ps)
      ≡ some (record { converged = false; took = p.elapsed; failed = true })
unfolding converge_key
converge_key-failed timeout p ps e = ground (arith, e)

converge_key-agreed :
    (timeout : ℤ) (p : Poll) (ps : List Poll)
    → nodes_agree p.answers ≡ some true
    → converge_key timeout (p ∷ ps)
      ≡ some (record { converged = true; took = p.elapsed; failed = false })
unfolding converge_key
converge_key-agreed timeout p ps e = ground (arith, e)

-- A polling that reaches its deadline ends.
pub converge_key-some :
    (timeout : ℤ) (ps : List Poll)
    → ReachesDeadline timeout ps
    → (c : Converged) × (converge_key timeout ps ≡ some c)
converge_key-some timeout [] h = absurd h
converge_key-some timeout (p ∷ ps) h = elim (answer-cases (nodes_agree p.answers)) [
  | inl e ↦ (_, converge_key-failed timeout p ps e)
  | inr (inl e) ↦ (_, converge_key-agreed timeout p ps e)
  | inr (inr e) ↦ elim (Bool-cases (is_over timeout p)) [
    | inl over ↦ let (c, eq, stale) = converge_key-over timeout p ps e over in (c, eq)
    | inr on ↦
        let rest = converge_key-some timeout ps in
        let later : ReachesDeadline timeout ps = elim h [
          | inl late ↦ absurd (ground (arith, late, on))
          | inr more ↦ more
        ] in
        let (c, eq) = rest later in (c, converge_key-differ timeout p ps e on ∙ eq)
  ]
]

-- What a polling that ends returns says whether the replicas agreed in time.
pub converge_key-AgreesInTime :
    (timeout : ℤ) (ps : List Poll) (c : Converged)
    → converge_key timeout ps ≡ some c
    → Agreed c ↔ AgreesInTime timeout ps
converge_key-AgreesInTime timeout [] c e = unfold converge_key in cc
converge_key-AgreesInTime timeout (p ∷ ps) c e =
    let alike = nodes_agree-Alike p.answers in
    let differ = nodes_agree-Differ p.answers in
    elim (answer-cases (nodes_agree p.answers)) [
      | inl none_ ↦
          let same = some_injective _ c (sym (converge_key-failed timeout p ps none_) ∙ e) in
          (
            λ h. absurd (ground (arith, h.0, ap (λ (d : Converged). d.failed) same)),
            λ a. elim a [
              | inl all ↦ absurd (ground (arith, none_, alike.1 all))
              | inr more ↦ absurd (ground (arith, none_, differ.1 more.0.0))
            ],
          )
      | inr (inl one) ↦
          let same = some_injective _ c (sym (converge_key-agreed timeout p ps one) ∙ e) in
          (
            λ h. inl (alike.0 one),
            λ a. (
              sym (ap (λ (d : Converged). d.failed) same),
              sym (ap (λ (d : Converged). d.converged) same),
            ),
          )
      | inr (inr two) ↦ elim (Bool-cases (is_over timeout p)) [
        | inl over ↦
            let (d, eq, stale) = converge_key-over timeout p ps two over in
            let same = some_injective d c (sym eq ∙ e) in
            (
              λ h. absurd (ground (arith, h.1, stale, ap (λ (d : Converged). d.converged) same)),
              λ a. elim a [
                | inl all ↦ absurd (ground (arith, two, alike.1 all))
                | inr more ↦ absurd (ground (arith, over, more.0.1, more.0.2, more.0.3))
              ],
            )
        | inr on ↦
            let rest =
              converge_key-AgreesInTime timeout ps c
                (sym (converge_key-differ timeout p ps two on) ∙ e) in
            (
              λ h. inr (
                (differ.0 two, ground (arith, on), ground (arith, on), ground (arith, on)),
                rest.0 h,
              ),
              λ a. elim a [
                | inl all ↦ absurd (ground (arith, two, alike.1 all))
                | inr more ↦ rest.1 more.1
              ],
            )
      ]
    ]
