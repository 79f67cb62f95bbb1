-- ===== src/Runner.antt =====
-- core/runner: the load loop of a run (runner.go, worker.go). An instant is a number of nanoseconds since
-- 1970; `time.Time.Sub` saturates at the ends of an int64. What the driver answers, the clock's readings and
-- whether the context has ended are arguments. The counters are updated by atomic operations that commute,
-- and `atomicMin` and `atomicMax` retry until their update is one step, so any interleaving of the workers
-- is a sequence of whole observations.
pub mod Connections
pub mod Tallies
pub mod Means
pub mod Examples
use proofload_sh.Prelude.{
  ℕ, zero, suc, ◌-◌, Bool, true, false, not, ◌&&◌, Option, none, some, List, [], ◌∷◌, ◌++◌,
  if◌then◌else◌, ℤ, pos, negsuc, ◌-ℤ◌, ◌+ℤ◌, pos_part, ltb_ℤ, leb_ℤ, eqb_ℤ,
}
use proofload_sh.Machine.{two63, add64, sub64, mul64, div64}

-- `Deps`, as far as `validate` reads it, and `Options`.
pub record Deps : Type 0 where
  pub has_driver : Bool
  pub has_sched : Bool
  pub has_gen : Bool

pub record Options : Type 0 where
  pub connections : ℤ
  pub warmup : ℤ
  pub duration : ℤ
  pub lateness_threshold : ℤ

pub data Error : Type 0 where
  nil_driver nil_scheduler nil_gen : Error
  bad_connections bad_duration bad_warmup : ℤ → Error
  connect_failed prepare_failed : ℕ → Error

-- `validate`: `none` is success.
pub validate : Deps → Options → Option Error
validate d o =
    if not d.has_driver
    then some nil_driver
    else if not d.has_sched
    then some nil_scheduler
    else if not d.has_gen
    then some nil_gen
    else if ltb_ℤ o.connections (pos 1)
    then some (bad_connections o.connections)
    else if leb_ℤ o.duration (pos 0)
    then some (bad_duration o.duration)
    else if ltb_ℤ o.warmup (pos 0)
    then some (bad_warmup o.warmup)
    else none

-- What happens to a connection, by its number.
pub data Event : Type 0 where
  opened closed : ℕ → Event

-- `closeAll`
pub close_all : List ℕ → List Event
close_all [] = []
close_all (c ∷ cs) = closed c ∷ close_all cs

-- What `connectAll` returns, and what it did to connections.
pub record Connected : Type 0 where
  pub conns : List ℕ
  pub error : Option Error
  pub trace : List Event

-- The loop of `connectAll` from connection i on, `left` of them: `connects` and `prepares` say whether the
-- driver's two calls succeed.
module _ (connects prepares : ℕ → Bool) where
  pub connect_from : (left i : ℕ) → List ℕ → List Event → Connected
  unfolding close_all
  connect_from zero i conns trace = record { conns = conns; error = none; trace = trace }
  connect_from (suc left) i conns trace =
      let rest = connect_from left (suc i) (conns ++ i ∷ []) (trace ++ opened i ∷ []) in
      let refused : Connected = record {
        conns = [];
        error = some (connect_failed i);
        trace = trace ++ close_all conns;
      } in
      let unprepared : Connected = record {
        conns = [];
        error = some (prepare_failed i);
        trace = (trace ++ opened i ∷ []) ++ closed i ∷ close_all conns;
      } in
      if not (connects i) then refused else if not (prepares i) then unprepared else rest

  pub connect_all : ℕ → Connected
  connect_all n = connect_from n 0 [] []

-- `accumulator`
pub record Accumulator : Type 0 where
  pub total : ℤ
  pub errors : ℤ
  pub lateness_sum : ℤ
  pub service_sum : ℤ
  pub records : ℤ
  pub min_intended : ℤ
  pub max_intended : ℤ

abbrev pub start : Accumulator
start = record {
  total = pos 0;
  errors = pos 0;
  lateness_sum = pos 0;
  service_sum = pos 0;
  records = pos 0;
  min_intended = pos (two63 - 1);
  max_intended = negsuc (two63 - 1);
}

-- An operation that has completed: its three instants, and what the result says.
pub record Sample : Type 0 where
  pub intended : ℤ
  pub dispatch : ℤ
  pub done : ℤ
  pub failed : Bool
  pub rows : ℤ

-- `time.Time.Sub`
pub between : ℤ → ℤ → ℤ
between a b =
    let d = a -ℤ b in
    if ltb_ℤ (pos (two63 - 1)) d
    then pos (two63 - 1)
    else if ltb_ℤ d (negsuc (two63 - 1))
    then negsuc (two63 - 1)
    else d

-- `atomicMin` and `atomicMax`
abbrev pub atomic_min : ℤ → ℤ → ℤ
atomic_min old v = if leb_ℤ old v then old else v

abbrev pub atomic_max : ℤ → ℤ → ℤ
atomic_max old v = if leb_ℤ v old then old else v

-- `observe`, without the sink and the observer that it passes the operation on to.
pub observe : ℤ → Sample → Accumulator → Accumulator
observe warmup_end s a =
    let late = between s.dispatch s.intended in
    let service = between s.done s.dispatch in
    if ltb_ℤ s.dispatch warmup_end then a else record {
      total = add64 a.total (pos 1);
      errors = if s.failed then add64 a.errors (pos 1) else a.errors;
      records =
          if s.failed
          then a.records
          else add64 a.records (if ltb_ℤ s.rows (pos 1) then pos 1 else s.rows);
      lateness_sum = add64 a.lateness_sum (if ltb_ℤ late (pos 0) then pos 0 else late);
      service_sum = if ltb_ℤ (pos 0) service then add64 a.service_sum service else a.service_sum;
      min_intended = atomic_min a.min_intended s.intended;
      max_intended = atomic_max a.max_intended s.intended;
    }

-- A round of the loop of `worker`: the context has ended before it, or during the wait, or while the
-- operation ran, or the operation completed.
pub data Round : Type 0 where
  ended_before ended_waiting ended_running : Round
  completed : Sample → Round

-- `worker`: the operations that it observes.
pub worker : List Round → List Sample
worker [] = []
worker (ended_before ∷ rs) = []
worker (ended_waiting ∷ rs) = []
worker (ended_running ∷ rs) = []
worker (completed s ∷ rs) = s ∷ worker rs

pub observe_all : ℤ → List Sample → Accumulator → Accumulator
unfolding observe
observe_all warmup_end [] a = a
observe_all warmup_end (s ∷ ss) a = observe_all warmup_end ss (observe warmup_end s a)

-- `RunReport`
pub record RunReport : Type 0 where
  pub total : ℤ
  pub errors : ℤ
  pub records : ℤ
  pub client_bound : Bool
  pub mean_lateness : ℤ
  pub mean_service : ℤ
  pub duration : ℤ

-- `meanInterArrival`
pub mean_inter_arrival : Accumulator → ℤ → ℤ
mean_inter_arrival a total =
    let span = sub64 a.max_intended a.min_intended in
    if ltb_ℤ total (pos 2)
    then pos 0
    else if leb_ℤ span (pos 0)
    then pos 0
    else div64 span (sub64 total (pos 1))

-- `measureElapsed`, with the clock's reading.
pub measure_elapsed : (now warmup_end limit : ℤ) → ℤ
unfolding between
measure_elapsed now warmup_end limit =
    let d = between now warmup_end in
    if ltb_ℤ d (pos 0) then pos 0 else if ltb_ℤ limit d then limit else d

-- `report`
pub report : (now warmup_end : ℤ) → Options → Accumulator → RunReport
unfolding measure_elapsed mean_inter_arrival
report now warmup_end o a =
    let elapsed = measure_elapsed now warmup_end o.duration in
    let lateness = div64 a.lateness_sum a.total in
    let service = div64 a.service_sum a.total in
    let threshold =
      if leb_ℤ o.lateness_threshold (pos 0)
      then mean_inter_arrival a a.total
      else o.lateness_threshold in
    let empty : RunReport = record {
      total = a.total;
      errors = a.errors;
      records = a.records;
      client_bound = false;
      mean_lateness = pos 0;
      mean_service = pos 0;
      duration = elapsed;
    } in
    if eqb_ℤ a.total (pos 0) then empty else record empty {
      mean_lateness = lateness;
      mean_service = service;
      client_bound =
          ltb_ℤ (pos 0) threshold
          && ltb_ℤ threshold lateness
          && ltb_ℤ service lateness
          && ltb_ℤ (mul64 a.errors (pos 20)) a.total;
    }

-- Why `Run` returns an error.
pub data Stop : Type 0 where
  refused : Error → Stop
  cancelled : Stop

pub record Ran : Type 0 where
  pub report : Option RunReport
  pub error : Option Stop
  pub trace : List Event

-- `Run` once its connections are there: `samples` are the operations that its workers observe, in the order
-- in which they do, and `ended` says whether the caller's context has ended.
pub run_load : (now warmup_end : ℤ) → Options → List Sample → (ended : Bool) → Connected → Ran
unfolding report observe_all close_all
run_load now warmup_end o samples ended c = elim c.error [
  | some e ↦ record { report = none; error = some (refused e); trace = c.trace }
  | none ↦ record {
    report = some (report now warmup_end o (observe_all warmup_end samples start));
    error = if ended then some cancelled else none;
    trace = c.trace ++ close_all c.conns;
  }
]

module _ (connects prepares : ℕ → Bool) where
  -- `Run`, started at the instant `base`.
  pub run : (now base : ℤ) → Deps → Options → List Sample → (ended : Bool) → Ran
  unfolding run_load validate connect_all
  run now base d o samples ended = elim (validate d o) [
    | some e ↦ record { report = none; error = some (refused e); trace = [] }
    | none ↦
        run_load now (base +ℤ o.warmup) o samples ended
          (connect_all connects prepares (pos_part o.connections))
  ]
