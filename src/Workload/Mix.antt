-- ===== src/Workload/Mix.antt =====
-- The weighted mix: over the draws below the total weight, each operation type is picked exactly as often
-- as its weight says.
use proofload_sh.Prelude.{
  ℕ, zero, suc, ◌+◌, ◌-◌, ◌<◌, ◌≡◌, ◌∙◌, sym, arith, ltb, if◌then◌else◌, List, [], ◌∷◌, ◌++◌, leb_ℤ,
  ltb_ℤ, some, String, ℤ, pos, negsuc, get_elem?, replicate, Bool-cases, inl, inr, false,
}
use proofload_sh.Machine.{two63, add64, add64-pos}
use proofload_sh.Workload.Accepted.{new-IsAccepted}
use proofload_sh.Workload.{
  OpSpec, new, Workload, bind-ok, Factory, cumulate, pick, pick_op, last_type, ok,
}

-- A weight as a number.
abbrev pub weight_of : ℤ → ℕ
weight_of (pos n) = n
weight_of (negsuc n) = 0

-- The operation types, each as often as its weight.
abbrev pub expand : List OpSpec → List String
expand [] = []
expand (op ∷ ops) = replicate (weight_of op.weight) op.type ++ expand ops

abbrev pub sum_weights : List OpSpec → ℕ
sum_weights [] = 0
sum_weights (op ∷ ops) = weight_of op.weight + sum_weights ops

get_elem?-block {ℓ} :
    {A : Type ℓ} (n x : ℕ) (a : A) (ys : List A)
    → get_elem? (replicate n a ++ ys) x ≡ (if ltb x n then some a else get_elem? ys (x - n))
get_elem?-block zero x a ys = let e : x - 0 ≡ x = omega arith in rw e (ground arith)
get_elem?-block (suc n) zero a ys = ground arith
get_elem?-block (suc n) (suc x) a ys =
    let e : suc x - suc n ≡ x - n = omega arith in rw (e) (ground (arith, get_elem?-block n x a ys))

-- The running totals from `t` on.
pub cums : List OpSpec → ℕ → List ℤ
cums [] t = []
cums (op ∷ ops) t = pos (t + weight_of op.weight) ∷ cums ops (t + weight_of op.weight)

-- A list of operations with positive weights, the only one that `New` accepts.
abbrev Weighted : List OpSpec → Type 0
Weighted [] = Unit {0}
Weighted (op ∷ ops) =
    (op.weight ≡ pos (weight_of op.weight)) × (0 < weight_of op.weight) × Weighted ops

positive_weight : (w : ℤ) → leb_ℤ w (pos 0) ≡ false → (w ≡ pos (weight_of w)) × (0 < weight_of w)
positive_weight (pos n) h = ground arith
positive_weight (negsuc n) h = ground arith

pub cumulate-Weighted :
    (ops : List OpSpec) (t : ℤ) {r : List ℤ × ℤ} → cumulate ops t ≡ ok r → Weighted ops
unfolding cumulate
cumulate-Weighted [] t e = tt
cumulate-Weighted (op ∷ ops) t e = elim (Bool-cases (leb_ℤ op.weight (pos 0))) [
  | inl bad ↦ ground (arith, bad)
  | inr good ↦
      let rest = bind-ok (cumulate ops (add64 t op.weight)) _ (rw good at e) in
      let w = positive_weight op.weight good in
      (w.0, w.1, cumulate-Weighted ops (add64 t op.weight) rest.1)
]

pub cumulate-cums :
    (ops : List OpSpec) (t : ℕ)
    → Weighted ops
    → t + sum_weights ops < two63
    → cumulate ops (pos t) ≡ ok (cums ops t, pos (t + sum_weights ops))
unfolding cumulate cums
cumulate-cums [] t w b = ground arith
cumulate-cums (op ∷ ops) t w b =
    ground
      (arith, add64-pos t (weight_of op.weight), cumulate-cums ops (t + weight_of op.weight) w.2)

pub pick-cums :
    (ops : List OpSpec) (t x : ℕ) (d : String)
    → x < sum_weights ops
    → some (pick (cums ops t) ops (pos (t + x)) d) ≡ get_elem? (expand ops) x
unfolding pick cums
pick-cums [] t x d h = absurd (omega arith)
pick-cums (op ∷ ops) t x d h = elim (Bool-cases (ltb x (weight_of op.weight))) [
  | inl this ↦ ground (arith, get_elem?-block (weight_of op.weight) x op.type (expand ops))
  | inr later ↦
      let w = weight_of op.weight in
      let e : t + w + (x - w) ≡ t + x = ground arith in
      let skip : ltb_ℤ (pos (t + x)) (pos (t + w)) ≡ false = ground arith in
      rw (skip, ← e, get_elem?-block w x op.type (expand ops), later)
        (pick-cums ops (t + w) (x - w) d (ground arith))
]

-- With a factory that `New` returns, and weights whose sum is below 2^63, the total is the sum of the weights, and for every draw below it the
-- type that `pickOp` picks is the one at the draw's place in the list of types, each repeated as often
-- as its weight.
pub pick_op-expand :
    (w : Workload) (id n : ℤ) (f : Factory) (x : ℕ)
    → new w id n ≡ ok f
    → sum_weights w.operations < two63
    → x < sum_weights w.operations
    → (f.total ≡ pos (sum_weights w.operations))
      × (get_elem? (expand w.operations) x ≡ some (pick_op f (pos x)))
unfolding pick_op
pick_op-expand w id n f x h fits below =
    let a = new-IsAccepted w id n h in
    let e =
      sym a.weights
      ∙ cumulate-cums w.operations 0 (cumulate-Weighted w.operations (pos 0) a.weights)
          (omega arith) in
    let cum : f.cum ≡ cums w.operations 0 = ground arith in
    let z : 0 + x ≡ x = omega arith in
    (
      ground arith,
      rw (cum, a.workload)
          (sym (rw z at (pick-cums w.operations 0 x (last_type w.operations "") below))),
    )
