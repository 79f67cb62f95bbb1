-- ===== src/Schedule/Ramps.antt =====
-- ramp.go against an independent description of a stepped ramp: the segments that `NewRamp` computes and
-- the binary search of `offsetForIndex` give the offset that walking the steps gives.
use native.Mathlib.Nat.{div-le_of_le-mul, div-mul-le_self}
use proofload_sh.Prelude.{
  div_mono, ℕ, zero, suc, ◌+◌, ◌-◌, ◌*◌, ◌/◌, ◌≤◌, ◌<◌, ◌≡◌, refl, ◌≢◌, inl, true, false, arith,
  List, [], ◌∷◌, Option, none, some, ltb, if◌then◌else◌, ℤ, pos, negsuc, length, get_elem?, leb_ℤ,
  ◌||◌,
}
use proofload_sh.Machine.{two63, add64-pos, sub64-pos}
use proofload_sh.Schedule.{
  RateStep, RampSeg, new_segs, offset_in, offset_for_index, starts_after, elem_before,
}
use proofload_sh.Schedule.Exact.{ns, offset_for-exact, ops_in_step-exact}
use proofload_sh.Schedule.Locate.{IsBoundary, search-IsBoundary}

-- A usable step: a positive rate, in operations per second, and a positive length, in nanoseconds.
pub record Leg : Type 0 where
  pub rate : ℕ
  pub length : ℕ

abbrev pub step_of : Leg → RateStep
step_of l = record { ops_per_sec = pos l.rate; duration = pos l.length }

-- The operations that a leg issues.
abbrev pub leg_ops : Leg → ℕ
leg_ops l = l.rate * l.length / ns

-- The offset of operation `n`: within a leg at its rate; past the operations of a leg, by the later
-- legs, which start where the leg ends. The last leg goes on for ever.
unfoldable pub walk : List Leg → ℕ → ℕ
walk [] n = 0
walk (l ∷ []) n = n * ns / l.rate
walk (l ∷ m ∷ legs) n =
    let later = walk (m ∷ legs) (n - leg_ops l) in
    if ltb n (leg_ops l) then n * ns / l.rate else l.length + later

-- The steps that are usable, in order.
pub data Legs : List RateStep → List Leg → Type 0 where
  done : Legs [] []
  skip :
      {s : RateStep} {steps : List RateStep} {legs : List Leg}
      → (leb_ℤ s.ops_per_sec (pos 0) || leb_ℤ s.duration (pos 0)) ≡ true
      → Legs steps legs
      → Legs (s ∷ steps) legs
  leg :
      {steps : List RateStep} {legs : List Leg} (l : Leg)
      → 0 < l.rate
      → 0 < l.length
      → Legs steps legs
      → Legs (step_of l ∷ steps) (l ∷ legs)

-- Rates below 2^63 / 10^9, and running counts and offsets within an int64.
abbrev pub Fits : List Leg → ℕ → ℕ → Type 0
Fits [] count offset = (count < two63) × (offset < two63)
Fits (l ∷ legs) count offset =
    (0 < l.rate) × (l.rate * ns < two63) × Fits legs (count + leg_ops l) (offset + l.length)

unfoldable pub segs_of : List Leg → ℕ → ℕ → List RampSeg
segs_of [] count offset = []
segs_of (l ∷ legs) count offset =
    record { start_count = pos count; start_offset = pos offset; rate = pos l.rate }
    ∷ segs_of legs (count + leg_ops l) (offset + l.length)

Fits-bounds :
    (legs : List Leg) (count offset : ℕ)
    → Fits legs count offset
    → (count < two63) × (offset < two63)
Fits-bounds [] count offset h = h
Fits-bounds (l ∷ legs) count offset h =
    omega (arith, Fits-bounds legs (count + leg_ops l) (offset + l.length) h.2)

new_segs-eq-segs_of :
    {steps : List RateStep} {legs : List Leg} (d : Legs steps legs) (count offset : ℕ)
    → Fits legs count offset
    → new_segs steps (pos count) (pos offset) ≡ segs_of legs count offset
unfolding new_segs segs_of
new_segs-eq-segs_of done count offset h = refl
new_segs-eq-segs_of (skip s d) count offset h = rw s (new_segs-eq-segs_of d count offset h)
new_segs-eq-segs_of (leg l r p d) count offset h =
    let b = Fits-bounds _ (count + leg_ops l) (offset + l.length) h.2 in
    ground (
      arith,
      ops_in_step-exact l.rate l.length r p (omega arith) h.1 (omega arith),
      add64-pos count (leg_ops l),
      add64-pos offset l.length,
      new_segs-eq-segs_of d (count + leg_ops l) (offset + l.length) h.2,
    )

-- The first segment starts at the running count, and the others not before it.
starts_after-le :
    (legs : List Leg) (count offset n i : ℕ)
    → starts_after (segs_of legs count offset) (pos n) i ≡ false
    → count ≤ n
unfolding starts_after segs_of
starts_after-le [] count offset n i h = cc
starts_after-le (l ∷ legs) count offset n zero h = ground arith
starts_after-le (l ∷ legs) count offset n (suc i) h =
    omega (arith, starts_after-le legs (count + leg_ops l) (offset + l.length) n i h)

module _ (l : Leg) (count offset n : ℕ) (r : 0 < l.rate) (slow : l.rate * ns < two63)
    (in_n : n < two63) (from : count ≤ n) (fits : offset + (n - count) * ns / l.rate < two63) where
  offset_in-leg :
      offset_in
        (some (record { start_count = pos count; start_offset = pos offset; rate = pos l.rate }))
        (pos n)
      ≡ some (pos (offset + (n - count) * ns / l.rate))
  offset_in-leg = ground (
    arith,
    sub64-pos n count,
    offset_for-exact (n - count) l.rate r,
    add64-pos offset ((n - count) * ns / l.rate),
  )

-- At the boundary between the segments that have started and the others, the segment before it gives
-- the offset of the walk.
offset_in-walk :
    (legs : List Leg) (count offset n j : ℕ)
    → Fits legs count offset
    → n < two63
    → offset + walk legs (n - count) < two63
    → starts_after (segs_of legs count offset) (pos n) j ≡ false
    → starts_after (segs_of legs count offset) (pos n) (suc j) ≡ true
    → offset_in (get_elem? (segs_of legs count offset) j) (pos n)
      ≡ some (pos (offset + walk legs (n - count)))
unfolding walk segs_of starts_after
offset_in-walk [] count offset n j f b w lo hi = cc
offset_in-walk (l ∷ []) count offset n zero f b w lo hi =
    offset_in-leg l count offset n f.0 f.1 b (ground arith) w
offset_in-walk (l ∷ []) count offset n (suc j) f b w lo hi = cc
offset_in-walk (l ∷ m ∷ legs) count offset n zero f b w lo hi =
    ground (arith, offset_in-leg l count offset n f.0 f.1 b)
offset_in-walk (l ∷ m ∷ legs) count offset n (suc j) f b w lo hi = ground (
  arith,
  starts_after-le (m ∷ legs) (count + leg_ops l) (offset + l.length) n j lo,
  offset_in-walk (m ∷ legs) (count + leg_ops l) (offset + l.length) n j f.2 b,
)

starts_after_end : (segs : List RampSeg) (n : ℤ) → starts_after segs n (length segs) ≡ true
unfolding starts_after
starts_after_end [] n = refl
starts_after_end (s ∷ segs) n = starts_after_end segs n

started_at_zero :
    (l : Leg) (legs : List Leg) (n : ℕ) → starts_after (segs_of (l ∷ legs) 0 0) (pos n) 0 ≡ false
unfolding starts_after segs_of
started_at_zero l legs n = ground arith

boundary-walk :
    (l : Leg) (legs : List Leg) (n k : ℕ)
    → Fits (l ∷ legs) 0 0
    → n < two63
    → walk (l ∷ legs) n < two63
    → IsBoundary (starts_after (segs_of (l ∷ legs) 0 0) (pos n)) k
    → offset_in (elem_before (segs_of (l ∷ legs) 0 0) k) (pos n) ≡ some (pos (walk (l ∷ legs) n))
boundary-walk l legs n zero f b w h = cc (started_at_zero l legs n, h.above)
boundary-walk l legs n (suc k) f b w h =
    let e : suc k - 1 ≡ k = omega arith in
    let last : starts_after (segs_of (l ∷ legs) 0 0) (pos n) k ≡ false = ground (arith, h.below) in
    let z : n - 0 ≡ n = omega arith in
    let fits : 0 + walk (l ∷ legs) (n - 0) < two63 = rw z (omega arith) in
    let at_zero : 0 + walk (l ∷ legs) (n - 0) ≡ walk (l ∷ legs) n = rw z (omega arith) in
    cc (offset_in-walk (l ∷ legs) 0 0 n k f b fits last h.above, at_zero)

-- The binary search over the segments of a ramp finds the walk's offset, for every operation.
offset_for_index-segs :
    (l : Leg) (legs : List Leg) (n : ℕ)
    → Fits (l ∷ legs) 0 0
    → n < two63
    → walk (l ∷ legs) n < two63
    → offset_for_index (segs_of (l ∷ legs) 0 0) (pos n) ≡ some (pos (walk (l ∷ legs) n))
unfolding offset_for_index
offset_for_index-segs l legs n f b w =
    let segs = segs_of (l ∷ legs) 0 0 in
    let size = length segs in
    boundary-walk l legs n _ f b w
      (search-IsBoundary size (starts_after segs (pos n)) 0 size (omega arith) (omega arith)
        (inl refl) (starts_after_end segs (pos n))).0

-- The usable steps, read off the source's signed numbers.
abbrev leg_of : ℤ → ℤ → Option Leg
leg_of (pos (suc r)) (pos (suc d)) = some (record { rate = suc r; length = suc d })
leg_of _ _ = none

abbrev cons_leg : Option Leg → List Leg → List Leg
cons_leg none legs = legs
cons_leg (some l) legs = l ∷ legs

unfoldable pub legs_of : List RateStep → List Leg
legs_of [] = []
legs_of (s ∷ steps) = cons_leg (leg_of s.ops_per_sec s.duration) (legs_of steps)

Legs-cons :
    (r d : ℤ) {steps : List RateStep} {legs : List Leg}
    → Legs steps legs
    → Legs (record { ops_per_sec = r; duration = d } ∷ steps) (cons_leg (leg_of r d) legs)
Legs-cons (pos (suc r)) (pos (suc d)) t =
    leg (record { rate = suc r; length = suc d }) (omega arith) (omega arith) t
Legs-cons (pos zero) d t = skip (refl) t
Legs-cons (negsuc r) d t = skip (ground arith) t
Legs-cons (pos (suc r)) (pos zero) t = skip (ground arith) t
Legs-cons (pos (suc r)) (negsuc d) t = skip (ground arith) t

Legs-legs_of : (steps : List RateStep) → Legs steps (legs_of steps)
unfolding legs_of
Legs-legs_of [] = done
Legs-legs_of (s ∷ steps) = Legs-cons s.ops_per_sec s.duration (Legs-legs_of steps)

-- The segments that `NewRamp` computes.
pub new_segs-segs_of :
    (steps : List RateStep)
    → Fits (legs_of steps) 0 0
    → new_segs steps (pos 0) (pos 0) ≡ segs_of (legs_of steps) 0 0
new_segs-segs_of steps f = new_segs-eq-segs_of (Legs-legs_of steps) 0 0 f

pub offset_for_index-walk :
    (legs : List Leg) (n : ℕ)
    → legs ≢ []
    → Fits legs 0 0
    → n < two63
    → walk legs n < two63
    → offset_for_index (segs_of legs 0 0) (pos n) ≡ some (pos (walk legs n))
offset_for_index-walk [] n ne f b w = absurd (ne refl)
offset_for_index-walk (l ∷ legs) n ne f b w = offset_for_index-segs l legs n f b w

-- Operation n of a leg starts within the leg.
leg_bound : (l : Leg) (n : ℕ) → 0 < l.rate → n < leg_ops l → n * ns / l.rate ≤ l.length
leg_bound l n r h = div-le_of_le-mul l.rate (omega (arith, div-mul-le_self (l.rate * l.length) ns))

walk-cons :
    (l m : Leg) (legs : List Leg) (n : ℕ)
    → walk (l ∷ m ∷ legs) n
      ≡ (if ltb n (leg_ops l) then n * ns / l.rate else l.length + walk (m ∷ legs) (n - leg_ops l))
unfolding walk
walk-cons l m legs n = refl

-- The offsets of a ramp never decrease.
pub walk_mono :
    (legs : List Leg) (n m count offset : ℕ)
    → Fits legs count offset
    → n ≤ m
    → walk legs n ≤ walk legs m
walk_mono [] n m c o f h = unfold walk in omega arith
walk_mono (l ∷ []) n m c o f h = unfold walk in div_mono (n * ns) (m * ns) l.rate f.0 (omega arith)
walk_mono (l ∷ k ∷ legs) n m c o f h = ground (
  arith,
  walk-cons l k legs n,
  walk-cons l k legs m,
  leg_bound l n f.0,
  div_mono (n * ns) (m * ns) l.rate f.0,
  walk_mono (k ∷ legs) (n - leg_ops l) (m - leg_ops l) (c + leg_ops l) (o + l.length) f.2,
)
