-- ===== src/Cli/Distributed/Rates.antt =====
-- How the rate of a distributed run is shared out.
use native.Mathlib.Nat.{div-add-mod, mod-lt, div-eq_of_lt, le-div_iff_mul-le}
use proofload_sh.Prelude.{
  ℕ, suc, ◌+◌, ◌*◌, ◌/◌, ◌≤◌, ◌<◌, ◌≡◌, ◌↔◌, arith, leb, if◌then◌else◌, Bool-cases, inl, inr, ltb,
  ltb→lt, some, ℤ, pos,
}
use proofload_sh.Machine.{two63, div64-pos}
use proofload_sh.Schedule.{fixed, closed_loop, open_loop, new_open_loop, new_closed_loop}
use proofload_sh.Cluster.{RunSpec}
use proofload_sh.Cli.Distributed.{worker_rate}

-- For a positive rate and a positive number of workers, each gets the quotient, rounded down, as its
-- share: the shares add up to no more than the rate and miss less than one operation a second each. The arrivals of a worker
-- are an open loop exactly when the rate is at least the number of workers; below that each of them runs
-- the closed loop, at its maximum.
pub worker_rate-share :
    (spec : RunSpec) (rate n : ℕ) (start : ℤ)
    → spec.rate_ops_per_sec ≡ pos (suc rate)
    → spec.worker_count ≡ pos (suc n)
    → suc rate < two63
    → (share : ℕ) × (worker_rate spec ≡ some (record { mode = fixed; ops_per_sec = pos share }))
      × (suc n * share ≤ suc rate)
      × (suc rate < suc n * share + suc n)
      × ((new_open_loop start (record { mode = fixed; ops_per_sec = pos share }) ≡ closed_loop)
          ↔ (rate < n))
unfolding worker_rate new_open_loop new_closed_loop
worker_rate-share spec rate n start e f b =
    let share = suc rate / suc n in
    let whole = div-add-mod (suc rate) (suc n) in
    let rest = mod-lt (suc rate) {m = suc n} (omega arith) in
    let one = le-div_iff_mul-le {k = suc n} {x = 1} {y = suc rate} (omega arith) in
    let paced : new_open_loop start (record { mode = fixed; ops_per_sec = pos share })
        ≡ (if leb share 0 then closed_loop else open_loop start (pos share) (pos 0)) =
      ground arith in
    (
      share,
      ground (arith, e, f, div64-pos (suc rate) (suc n) b),
      omega (arith, whole),
      omega (arith, whole, rest),
      (
        λ h. elim (Bool-cases (ltb rate n)) [
          | inl few ↦ ltb→lt rate n few
          | inr many ↦
              let busy : 1 ≤ share = one.1 (ground (arith, many)) in ground (arith, busy, h)
        ],
        λ h. ground (arith, div-eq_of_lt {n = suc rate} {m = suc n} (omega (arith, h))),
      ),
    )
