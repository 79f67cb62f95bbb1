-- ===== src/Schedule/Arrivals.antt =====
-- The intended times that a schedule hands out over a sequence of calls of `Next`. Each call claims the
-- counter atomically, so call n is the n-th claim whichever goroutine makes it.
use proofload_sh.Prelude.{
  ℕ, zero, suc, ◌+◌, ◌-◌, ◌*◌, ◌/◌, ◌≤◌, ◌<◌, ◌≡◌, refl, ◌≢◌, Bool, arith, List, [], ◌∷◌, Option,
  some, ℤ, pos, ◌+ℤ◌, ◌≤ℤ◌, +ℤ_parts, -ℤ_parts, ap, ◌∙◌,
}
use proofload_sh.Machine.{two63, add64-pos, sub64-pos}
use proofload_sh.Schedule.{
  fixed, RateStep, RampSeg, Scheduler, closed_loop, open_loop, ramp, new_open_loop, new_closed_loop,
  new_ramp, ramp_of, next, wait_until,
}
use proofload_sh.Schedule.Exact.{ns, offset_for-exact}
use proofload_sh.Schedule.Ramps.{
  Leg, Fits, walk, legs_of, segs_of, new_segs-segs_of, offset_for_index-walk, walk_mono,
}

-- The schedule after some calls. The clock's readings do not matter to an open loop.
pub after_calls : ℕ → Scheduler → Scheduler
after_calls zero s = s
after_calls (suc k) s = after_calls k (next (pos 0) s).1

-- What call n returns, from 0.
abbrev pub nth_time : ℕ → Scheduler → Option ℤ
nth_time n s = (next (pos 0) (after_calls n s)).0

after_calls-open_loop :
    (k n : ℕ) (start ops : ℤ)
    → n + k < two63
    → after_calls k (open_loop start ops (pos n)) ≡ open_loop start ops (pos (n + k))
unfolding after_calls next
after_calls-open_loop zero n start ops h = ap (λ t. open_loop start ops (pos t)) (omega arith)
after_calls-open_loop (suc k) n start ops h =
    ground (arith, add64-pos n 1, after_calls-open_loop k (n + 1) start ops)

after_calls-ramp :
    (k n : ℕ) (start : ℤ) (segs : List RampSeg)
    → n + k < two63
    → after_calls k (ramp start segs (pos n)) ≡ ramp start segs (pos (n + k))
unfolding after_calls next
after_calls-ramp zero n start segs h = ap (λ t. ramp start segs (pos t)) (omega arith)
after_calls-ramp (suc k) n start segs h =
    ground (arith, add64-pos n 1, after_calls-ramp k (n + 1) start segs)

-- Call n, from 0, of an open loop at a positive rate of `ops` operations per second returns
-- start + floor (n * 10^9 / ops), if ops * 10^9, n + 1 and that offset are below 2^63.
pub open_loop_times :
    (start : ℤ) (ops n : ℕ)
    → 0 < ops
    → ops * ns < two63
    → n + 1 < two63
    → n * ns / ops < two63
    → nth_time n (new_open_loop start (record { mode = fixed; ops_per_sec = pos ops }))
      ≡ some (start +ℤ pos (n * ns / ops))
unfolding new_open_loop next
open_loop_times start ops n p small b fits = ground (
  arith,
  after_calls-open_loop n 0 start (pos ops),
  add64-pos n 1,
  sub64-pos (n + 1) 1,
  offset_for-exact n ops p,
)

ramp_of-segs_of :
    (start : ℤ) (legs : List Leg)
    → legs ≢ []
    → ramp_of start (segs_of legs 0 0) ≡ ramp start (segs_of legs 0 0) (pos 0)
unfolding ramp_of segs_of
ramp_of-segs_of start [] ne = absurd (ne refl)
ramp_of-segs_of start (l ∷ legs) ne = refl

new_ramp-segs_of :
    (start : ℤ) (steps : List RateStep)
    → legs_of steps ≢ []
    → Fits (legs_of steps) 0 0
    → new_ramp start steps ≡ ramp start (segs_of (legs_of steps) 0 0) (pos 0)
unfolding new_ramp
new_ramp-segs_of start steps ne f =
    ap (ramp_of start) (new_segs-segs_of steps f) ∙ ramp_of-segs_of start (legs_of steps) ne

ramp_time :
    (start : ℤ) (legs : List Leg) (n : ℕ)
    → legs ≢ []
    → Fits legs 0 0
    → n + 1 < two63
    → walk legs n < two63
    → (next (pos 0) (ramp start (segs_of legs 0 0) (pos (0 + n)))).0
      ≡ some (start +ℤ pos (walk legs n))
unfolding next
ramp_time start legs n ne f b fits =
    let z : 0 + n ≡ n = omega arith in
    let back : n + 1 - 1 ≡ n = omega arith in
    rw (
      z,
      add64-pos n 1 b,
      sub64-pos (n + 1) 1 (omega arith) b,
      back,
      offset_for_index-walk legs n ne f (omega arith) fits,
    )

-- Call n, from 0, of a ramp with a usable step returns the start plus the offset that walking the usable
-- steps gives, if the rates, the running counts and offsets, n + 1 and the result fit an int64.
pub ramp_times :
    (start : ℤ) (steps : List RateStep) (n : ℕ)
    → legs_of steps ≢ []
    → Fits (legs_of steps) 0 0
    → n + 1 < two63
    → walk (legs_of steps) n < two63
    → nth_time n (new_ramp start steps) ≡ some (start +ℤ pos (walk (legs_of steps) n))
ramp_times start steps n ne f b fits =
    ap (λ s. (next (pos 0) s).0)
      (ap (after_calls n) (new_ramp-segs_of start steps ne f)
        ∙ after_calls-ramp n 0 start (segs_of (legs_of steps) 0 0) (omega arith))
    ∙ ramp_time start (legs_of steps) n ne f b fits

-- Without a usable step the ramp fires at once: it is the closed loop.
pub new_ramp-closed_loop :
    (start : ℤ) (steps : List RateStep) → legs_of steps ≡ [] → new_ramp start steps ≡ closed_loop
unfolding new_ramp
new_ramp-closed_loop start steps e =
    ap (ramp_of start)
      (new_segs-segs_of steps (rw e (omega arith)) ∙ ap (λ legs. segs_of legs 0 0) e)
    ∙ (unfold ramp_of segs_of new_closed_loop in refl)

-- The lateness that a wait reports is never negative.
pub wait_until-nonneg :
    (now woken : ℤ) (cancelled : Bool) (t : ℤ) {d : ℤ}
    → wait_until now woken cancelled t ≡ some d
    → pos 0 ≤ℤ d
unfolding wait_until
wait_until-nonneg now woken cancelled t h =
    ground (arith, -ℤ_parts t now, -ℤ_parts now t, -ℤ_parts woken t)

-- Of calls n ≤ m of a ramp with a usable step both return a time, and the later returns no earlier one,
-- also across steps of different rates, if the rates, the running counts and offsets, m + 1 and the offset
-- of call m fit an int64.
pub ramp_times_mono :
    (start : ℤ) (steps : List RateStep) (n m : ℕ)
    → n ≤ m
    → legs_of steps ≢ []
    → Fits (legs_of steps) 0 0
    → m + 1 < two63
    → walk (legs_of steps) m < two63
    → (s t : ℤ) × (nth_time n (new_ramp start steps) ≡ some s)
      × (nth_time m (new_ramp start steps) ≡ some t)
      × (s ≤ℤ t)
ramp_times_mono start steps n m nm ne f b fits =
    let le = walk_mono (legs_of steps) n m 0 0 f nm in
    (
      start +ℤ pos (walk (legs_of steps) n),
      start +ℤ pos (walk (legs_of steps) m),
      ramp_times start steps n ne f (omega arith) (omega arith),
      ramp_times start steps m ne f b fits,
      omega (
        arith,
        +ℤ_parts start (pos (walk (legs_of steps) n)),
        +ℤ_parts start (pos (walk (legs_of steps) m)),
      ),
    )
