-- ===== src/Schedule/Exact.antt =====
-- The split divisions of scheduler.go and ramp.go are exact: no rounding and no overflow as long as the
-- result fits an int64.
use native.Mathlib.Nat.{mul-add-div, div-add-mod, mod-lt}
use proofload_sh.Prelude.{ℕ, ◌+◌, ◌*◌, ◌/◌, ◌%◌, ◌<◌, ◌≡◌, sym, ap, ◌∙◌, arith, pos}
use proofload_sh.Machine.{two63, add64-pos, mul64-pos, div64-pos, rem64-pos}
use proofload_sh.Schedule.{offset_for, ops_in_step}

-- One second in nanoseconds.
abbrev pub ns : ℕ
ns = 1000000000

-- floor (n * k / d), computed from the quotient and the remainder of n by d.
pub split_div : (n k d : ℕ) → 0 < d → n / d * k + n % d * k / d ≡ n * k / d
split_div n k d h = sym (mul-add-div h (n / d * k) (n % d * k)) ∙ ap (λ t. t / d) regroup
  where
    regroup : d * (n / d * k) + n % d * k ≡ n * k
    regroup = omega (arith, ap (λ (t : ℕ). t * k) (div-add-mod n d))

module _ (n ops : ℕ) (pos_ops : 0 < ops) (small_n : n < two63) (small_ops : ops * ns < two63)
    (fits : n * ns / ops < two63) where
  split_fits : (n / ops * ns < two63) × (n % ops * ns < two63)
  split_fits = (omega (arith, split_div n ns ops pos_ops), omega (arith, mod-lt n pos_ops))

  -- If ops is positive, and n, ops * 10^9 and the result are below 2^63, the intended offset of operation
  -- n is floor (n * 10^9 / ops) nanoseconds: splitting off whole seconds first loses nothing.
  pub offset_for-exact : offset_for (pos n) (pos ops) ≡ pos (n * ns / ops)
  unfolding offset_for
  offset_for-exact = ground (
    arith,
    div64-pos n ops,
    rem64-pos n ops,
    mul64-pos (n / ops) ns split_fits.0,
    mul64-pos (n % ops) ns split_fits.1,
    div64-pos (n % ops * ns) ops split_fits.1,
    split_div n ns ops pos_ops,
    add64-pos (n / ops * ns) (n % ops * ns / ops),
  )

module _ (rate dur : ℕ) (pos_rate : 0 < rate) (pos_dur : 0 < dur) (small_dur : dur < two63)
    (small_rate : rate * ns < two63) (fits : rate * dur / ns < two63) where
  rate_split : rate * (dur / ns) + rate * (dur % ns) / ns ≡ rate * dur / ns
  rate_split = omega (arith, split_div dur rate ns (omega arith))

  -- If the rate and the duration are positive, and dur, rate * 10^9 and the result are below 2^63, a step
  -- of `dur` nanoseconds issues floor (rate * dur / 10^9) operations.
  pub ops_in_step-exact : ops_in_step (pos rate) (pos dur) ≡ pos (rate * dur / ns)
  unfolding ops_in_step
  ops_in_step-exact = ground (
    arith,
    div64-pos dur ns small_dur,
    rem64-pos dur ns small_dur,
    mul64-pos rate (dur / ns) (omega (arith, rate_split)),
    mul64-pos rate (dur % ns) rest_fits,
    div64-pos (rate * (dur % ns)) ns rest_fits,
    rate_split,
    add64-pos (rate * (dur / ns)) (rate * (dur % ns) / ns),
  )
    where
      rest_fits : rate * (dur % ns) < two63
      rest_fits = grind arith
