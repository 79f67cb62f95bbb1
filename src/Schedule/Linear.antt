-- ===== src/Schedule/Linear.antt =====
-- The linear interpolation of `LinearRamp`.
use native.Mathlib.Nat.{mul-div_cancel, zero-div, div-le_of_le-mul, mul_comm}
use proofload_sh.Prelude.{
  ℕ, zero, suc, ◌+◌, ◌-◌, ◌*◌, ◌/◌, ◌≤◌, ◌<◌, ◌≡◌, ap, arith, div_mono, some, ℤ, pos, get_elem?,
}
use proofload_sh.Machine.{
  two63, add64, add64-pos, sub64, sub64-pos, mul64, mul64-pos, div64, div64-pos,
}
use proofload_sh.Schedule.{linear_steps}

-- The rate of step i of a rising ramp.
abbrev pub rate_at : ℕ → ℕ → ℕ → ℕ → ℕ
rate_at from to nsteps i = from + (to - from) * i / (nsteps - 1)

module _ (from to nsteps : ℕ) (each : ℤ) (rising : from ≤ to) (several : 2 ≤ nsteps)
    (small : to < two63) (few : nsteps < two63) (fits : to * nsteps < two63) where
  rate_product : (i : ℕ) → i < nsteps → (to - from) * i < two63
  rate_product i h = grind arith

  rate_le : (i : ℕ) → i < nsteps → from + (to - from) * i / (nsteps - 1) ≤ to
  rate_le i h =
      let q : (to - from) * i / (nsteps - 1) ≤ to - from =
        div-le_of_le-mul (nsteps - 1) (rw (mul_comm (nsteps - 1) (to - from)) (grind arith)) in
      omega arith

  step_rate :
      (i : ℕ)
      → i < nsteps
      → add64
          (pos from)
          (div64 (mul64 (sub64 (pos to) (pos from)) (pos i)) (sub64 (pos nsteps) (pos 1)))
        ≡ pos (rate_at from to nsteps i)
  step_rate i h =
      rw
        (
          sub64-pos to from rising small,
          sub64-pos nsteps 1 (omega arith) few,
          mul64-pos (to - from) i (rate_product i h),
          div64-pos ((to - from) * i) (nsteps - 1) (rate_product i h),
        )
        (add64-pos from ((to - from) * i / (nsteps - 1)) (omega (arith, rate_le i h)))

  get_elem?-linear_steps :
      (left k i j : ℕ)
      → k + left ≡ nsteps
      → i < left
      → j ≡ k + i
      → get_elem? (linear_steps (pos from) (pos to) (pos nsteps) each k left) i
        ≡ some (record { ops_per_sec = pos (rate_at from to nsteps j); duration = each })
  unfolding linear_steps
  get_elem?-linear_steps zero k i j e h at = absurd (omega arith)
  get_elem?-linear_steps (suc left) k zero j e h at =
      let same : j ≡ k = omega arith in
      rw same
        (ap (λ r. some (record { ops_per_sec = r; duration = each })) (step_rate k (omega arith)))
  get_elem?-linear_steps (suc left) k (suc i) j e h at =
      get_elem?-linear_steps left (suc k) i j (omega arith) (omega arith) (omega arith)

  -- Step i of a rising linear ramp has the rate from + floor ((to - from) * i / (nsteps - 1)).
  pub linear_steps_rates :
      (i : ℕ)
      → i < nsteps
      → get_elem? (linear_steps (pos from) (pos to) (pos nsteps) each 0 nsteps) i
        ≡ some (record { ops_per_sec = pos (rate_at from to nsteps i); duration = each })
  linear_steps_rates i h = get_elem?-linear_steps nsteps 0 i i (omega arith) h (omega arith)

  rate_at_last : rate_at from to nsteps (nsteps - 1) ≡ to
  rate_at_last = omega (arith, mul-div_cancel (to - from) {n = nsteps - 1} (omega arith))

  rate_at_first : rate_at from to nsteps 0 ≡ from
  rate_at_first =
      let e : (to - from) * 0 ≡ 0 = omega arith in rw (e, zero-div (nsteps - 1)) (omega arith)

  abbrev pub RateOfStep : ℕ → ℕ → Type 0
  RateOfStep i r =
      get_elem? (linear_steps (pos from) (pos to) (pos nsteps) each 0 nsteps) i
      ≡ some (record { ops_per_sec = pos r; duration = each })

  -- In a linear ramp from a rate to no lower one, in at least two steps and with to * nsteps below 2^63,
  -- the first step has the rate `from`, the last the rate `to`, and of two steps i ≤ j the later has no
  -- lower rate, with both rates between `from` and `to`.
  pub linear_steps_rise :
      (i j : ℕ)
      → i ≤ j
      → j < nsteps
      → RateOfStep 0 from
        × RateOfStep (nsteps - 1) to
        × ((r q : ℕ) × RateOfStep i r × RateOfStep j q × (from ≤ r) × (r ≤ q) × (q ≤ to))
  linear_steps_rise i j ij h = (
    rw rate_at_first at (linear_steps_rates 0 (omega arith)),
    rw rate_at_last at (linear_steps_rates (nsteps - 1) (omega arith)),
    (
      rate_at from to nsteps i,
      rate_at from to nsteps j,
      linear_steps_rates i (omega arith),
      linear_steps_rates j h,
      omega arith,
      omega (
        arith,
        div_mono ((to - from) * i) ((to - from) * j) (nsteps - 1) (omega arith) (grind arith),
      ),
      rate_le j h,
    ),
  )
