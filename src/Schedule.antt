-- ===== src/Schedule.antt =====
-- core/schedule: the arrival schedules that hand out intended start times (scheduler.go, ramp.go,
-- poisson.go) and the wait for one of them (wait.go). A time is a number of nanoseconds, an integer;
-- `time.Time.Add` is exact, and a `time.Duration` is an int64. The atomic counter of a schedule is a
-- field of its state, and one call of `next` is one atomic claim, so any interleaving of goroutines is
-- a sequence of calls. The clock's reading and the random gaps are arguments.
pub mod Exact
pub mod Locate
pub mod Ramps
pub mod Arrivals
pub mod Linear
pub mod Examples
use proofload_sh.Prelude.{
  ℕ, zero, suc, ◌+◌, ◌-◌, ◌/◌, Bool, true, false, ◌||◌, Option, none, some, List, [], ◌∷◌, ltb, leb,
  if◌then◌else◌, ℤ, pos, negsuc, ◌+ℤ◌, ◌-ℤ◌, ltb_ℤ, leb_ℤ, length, get_elem?,
}
use proofload_sh.Machine.{wrap, add64, sub64, mul64, div64, rem64}

-- time.Second
abbrev pub second : ℤ
second = pos 1000000000

-- domain.RateMode and domain.RateSpec
pub data RateMode : Type 0 where
  fixed max_rate : RateMode

pub record RateSpec : Type 0 where
  pub mode : RateMode
  pub ops_per_sec : ℤ

pub record RateStep : Type 0 where
  pub ops_per_sec : ℤ
  pub duration : ℤ

pub record RampSeg : Type 0 where
  pub start_count : ℤ
  pub start_offset : ℤ
  pub rate : ℤ

pub data Scheduler : Type 0 where
  closed_loop : Scheduler
  open_loop : (start ops n : ℤ) → Scheduler
  ramp : (start : ℤ) → List RampSeg → (n : ℤ) → Scheduler

unfoldable pub new_closed_loop : ℤ → Scheduler
new_closed_loop start = closed_loop

abbrev is_fixed : RateMode → Bool
is_fixed fixed = true
is_fixed max_rate = false

unfoldable pub new_open_loop : ℤ → RateSpec → Scheduler
new_open_loop start rate =
    if is_fixed rate.mode
    then (if leb_ℤ rate.ops_per_sec (pos 0)
        then new_closed_loop start
        else open_loop start rate.ops_per_sec (pos 0))
    else new_closed_loop start

-- n / λ as a duration, in whole seconds and a remainder.
pub offset_for : ℤ → ℤ → ℤ
offset_for n ops =
    if leb_ℤ ops (pos 0)
    then pos 0
    else add64 (mul64 (div64 n ops) second) (div64 (mul64 (rem64 n ops) second) ops)

-- The number of operations that a step issues.
pub ops_in_step : ℤ → ℤ → ℤ
ops_in_step rate dur =
    if leb_ℤ rate (pos 0) || leb_ℤ dur (pos 0)
    then pos 0
    else add64 (mul64 rate (div64 dur second)) (div64 (mul64 rate (rem64 dur second)) second)

-- The loop of `NewRamp` over the steps, with its running count and offset.
pub new_segs : List RateStep → ℤ → ℤ → List RampSeg
new_segs [] count offset = []
new_segs (s ∷ steps) count offset =
    let skipped = new_segs steps count offset in
    let taken =
      record { start_count = count; start_offset = offset; rate = s.ops_per_sec }
      ∷ new_segs steps (add64 count (ops_in_step s.ops_per_sec s.duration))
          (add64 offset s.duration) in
    if leb_ℤ s.ops_per_sec (pos 0) || leb_ℤ s.duration (pos 0) then skipped else taken

ramp_of : ℤ → List RampSeg → Scheduler
ramp_of start [] = new_closed_loop start
ramp_of start (s ∷ segs) = ramp start (s ∷ segs) (pos 0)

pub new_ramp : ℤ → List RateStep → Scheduler
new_ramp start steps = ramp_of start (new_segs steps (pos 0) (pos 0))

-- The steps i, i + 1, … of a linear ramp, `left` of them.
pub linear_steps : ℤ → ℤ → ℤ → ℤ → ℕ → ℕ → List RateStep
linear_steps from to nsteps each i zero = []
linear_steps from to nsteps each i (suc left) =
    record {
      ops_per_sec = add64 from (div64 (mul64 (sub64 to from) (pos i)) (sub64 nsteps (pos 1)));
      duration = each;
    }
    ∷ linear_steps from to nsteps each (suc i) left

abbrev count_of : ℤ → ℕ
count_of (pos n) = n
count_of (negsuc n) = 0

pub linear_ramp : ℤ → ℤ → ℤ → ℤ → ℤ → Scheduler
linear_ramp start from to nsteps each =
    if leb_ℤ nsteps (pos 1)
    then new_ramp start (record { ops_per_sec = to; duration = each } ∷ [])
    else new_ramp start (linear_steps from to nsteps each 0 (count_of nsteps))

-- `sort.Search`: binary search for the first index in [i, j) at which `f` holds. The interval
-- shrinks at each round, so `j - i` rounds suffice.
pub search : ℕ → (ℕ → Bool) → ℕ → ℕ → ℕ
search zero f i j = i
search (suc fuel) f i j =
    let h = (i + j) / 2 in
    let left = search fuel f i h in
    let right = search fuel f (suc h) j in if ltb i j then (if f h then left else right) else i

pub starts_after : List RampSeg → ℤ → ℕ → Bool
starts_after segs n k = elim (get_elem? segs k) [ none ↦ true | some s ↦ ltb_ℤ n s.start_count ]

abbrev pub offset_in : Option RampSeg → ℤ → Option ℤ
offset_in none n = none
offset_in (some s) n = some (add64 s.start_offset (offset_for (sub64 n s.start_count) s.rate))

abbrev pub elem_before {ℓ} : {A : Type ℓ} → List A → ℕ → Option A
elem_before xs zero = none
elem_before xs (suc i) = get_elem? xs i

-- `none` is the panic of an index out of range.
pub offset_for_index : List RampSeg → ℤ → Option ℤ
offset_for_index segs n =
    offset_in (elem_before segs (search (length segs) (starts_after segs n) 0 (length segs))) n

abbrev pub shifted : ℤ → Option ℤ → Option ℤ
shifted start none = none
shifted start (some d) = some (start +ℤ d)

-- `Next`: the intended time, and the schedule with its counter advanced. `now` is the clock.
pub next : ℤ → Scheduler → Option ℤ × Scheduler
next now closed_loop = (some now, closed_loop)
next now (open_loop start ops n) =
    let n' = add64 n (pos 1) in
    (some (start +ℤ offset_for (sub64 n' (pos 1)) ops), open_loop start ops n')
next now (ramp start segs n) =
    let n' = add64 n (pos 1) in
    (shifted start (offset_for_index segs (sub64 n' (pos 1))), ramp start segs n')

-- poisson.go: the generator's next gap, already a duration, is an argument.
pub record Poisson : Type 0 where
  pub start : ℤ
  pub cum : ℤ

pub next_poisson : ℤ → Poisson → ℤ × Poisson
next_poisson gap p = let cum' = add64 p.cum gap in (p.start +ℤ cum', record p { cum = cum' })

-- wait.go: what the wait for `t` returns. `now` is the clock at the call and `woken` at the wake-up,
-- `cancelled` says that the context ended first; `none` is the context's error.
pub wait_until : (now woken : ℤ) → Bool → ℤ → Option ℤ
wait_until now woken cancelled t =
    if leb_ℤ (t -ℤ now) (pos 0)
    then some (now -ℤ t)
    else if cancelled
    then none
    else if ltb_ℤ (woken -ℤ t) (pos 0)
    then some (pos 0)
    else some (woken -ℤ t)
