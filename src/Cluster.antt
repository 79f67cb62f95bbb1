-- ===== src/Cluster.antt =====
-- core/cluster: the coordinator of a distributed run (protocol.go, coordinator.go, handlers.go) as a
-- state with one function per handler, and the worker's side (worker.go). The mutex makes each of
-- `register`, `recordSubmit` and `result` one step; a channel that is closed is a Boolean, and the
-- clock's reading is an argument. A decoded JSON body is an argument, `none` where it does not decode.
pub mod Slots
pub mod Barrier
pub mod Requests
pub mod Complete
pub mod Address
pub mod Examples
use proofload_sh.Prelude.{
  has_prefix, ℕ, zero, suc, ◌+◌, Bool, true, false, not, ◌&&◌, Option, none, some, List, [], ◌∷◌,
  ◌++◌, String, ◌==◌, if◌then◌else◌, int_eq, ℤ, pos, negsuc, ◌+ℤ◌, ltb_ℤ, leb_ℤ, eqb, length, Dict,
  lookup, insert, is_some, codes, eqb_ℤ,
}
use proofload_sh.Machine.{add64}

pub record RunSpec : Type 0 where
  pub target : String
  pub workload : String
  pub endpoints : List String
  pub consistency : String
  pub connections : ℤ
  pub warmup : ℤ
  pub duration : ℤ
  pub rate_ops_per_sec : ℤ
  pub seed : ℤ
  pub worker_count : ℤ

pub record WorkerReport : Type 0 where
  pub worker_id : ℤ
  pub total : ℤ
  pub errors : ℤ
  pub client_bound : Bool

-- A histogram travels as opaque bytes.
abbrev pub Blob : Type 0
Blob = List ℕ

pub record Outcome : Type 0 where
  pub reports : List WorkerReport
  pub histograms : List Blob

pub record SubmitRequest : Type 0 where
  pub report : WorkerReport
  pub histogram : Blob

pub record Coordinator : Type 0 where
  pub spec : RunSpec
  pub worker_count : ℤ
  pub start_lead : ℤ
  pub max_wait : ℤ
  pub joined : Dict ℤ Bool
  pub start_at : Option ℤ
  pub reports : Dict ℤ WorkerReport
  pub histos : Dict ℤ Blob
  pub joined_all : Bool
  pub submitted_all : Bool
  pub stopped : Bool

-- 500 milliseconds and 5 minutes, in nanoseconds.
abbrev pub default_start_lead : ℤ
default_start_lead = pos 500000000

abbrev pub default_max_wait : ℤ
default_max_wait = pos 300000000000

-- `NewCoordinator`
pub new_coordinator : RunSpec → ℤ → Coordinator
new_coordinator spec worker_count = record {
  spec = spec;
  worker_count = worker_count;
  start_lead = default_start_lead;
  max_wait = pos 0;
  joined = [];
  start_at = none;
  reports = [];
  histos = [];
  joined_all = false;
  submitted_all = false;
  stopped = false;
}

pub start_lead_of : Coordinator → ℤ
start_lead_of c = if leb_ℤ c.start_lead (pos 0) then default_start_lead else c.start_lead

pub max_wait_of : Coordinator → ℤ
unfolding start_lead_of
max_wait_of c =
    let d = add64 (add64 c.spec.warmup c.spec.duration) (start_lead_of c) in
    if ltb_ℤ (pos 0) c.max_wait
    then c.max_wait
    else if ltb_ℤ (pos 0) d
    then add64 d default_max_wait
    else default_max_wait

-- A missing entry of the map of joined workers reads false.
abbrev pub true_in : Option Bool → Bool
true_in none = false
true_in (some b) = b

abbrev pub has_joined : Coordinator → ℤ → Bool
has_joined c id = true_in (lookup id c.joined)

-- The lowest free slot among i, i + 1, …, `left` of them.
pub lowest_free : Coordinator → ℕ → ℕ → Option ℤ
lowest_free c i zero = none
lowest_free c i (suc left) =
    let rest = lowest_free c (suc i) left in if has_joined c (pos i) then rest else some (pos i)

abbrev pub count_of : ℤ → ℕ
count_of (pos n) = n
count_of (negsuc n) = 0

-- The slot that a request gets.
pub assign : Coordinator → ℤ → Option ℤ
unfolding lowest_free
assign c requested =
    if leb_ℤ (pos 0) requested && ltb_ℤ requested c.worker_count && not (has_joined c requested)
    then some requested
    else lowest_free c 0 (count_of c.worker_count)

pub open_barrier : ℤ → Coordinator → Coordinator
open_barrier now c =
    if eqb_ℤ (pos (length c.joined)) c.worker_count && not c.joined_all
    then record c { start_at = some (now +ℤ start_lead_of c); joined_all = true }
    else c

pub enter : ℤ → Coordinator → Option ℤ → Option ℤ × Coordinator
unfolding open_barrier
enter now c none = (none, c)
enter now c (some id) = (some id, open_barrier now (record c { joined = insert id true c.joined }))

-- `register`: `none` stands for the pair of -1 and false, a full cluster.
pub register : ℤ → ℤ → Coordinator → Option ℤ × Coordinator
unfolding enter assign
register now requested c = enter now c (assign c requested)

pub open_completion : Coordinator → Coordinator
open_completion c =
    if eqb_ℤ (pos (length c.reports)) c.worker_count then record c { submitted_all = true } else c

-- `recordSubmit`
pub record_submit : SubmitRequest → Coordinator → Bool × Coordinator
unfolding open_completion
record_submit req c =
    let id = req.report.worker_id in
    if has_joined c id
    then (
      true,
      open_completion (record c {
        reports = insert id req.report c.reports;
        histos = insert id req.histogram c.histos;
      }),
    )
    else (false, c)

abbrev pub or_empty : Option Blob → Blob
or_empty none = []
or_empty (some b) = b

add_result : Option WorkerReport → Blob → Outcome → Outcome
add_result none b r = r
add_result (some rep) b r = record { reports = rep ∷ r.reports; histograms = b ∷ r.histograms }

-- The slots i, i + 1, … of the result, `left` of them.
pub collect : Coordinator → ℕ → ℕ → Outcome
unfolding add_result
collect c i zero = record { reports = []; histograms = [] }
collect c i (suc left) =
    add_result (lookup (pos i) c.reports) (or_empty (lookup (pos i) c.histos))
      (collect c (suc i) left)

-- `result`
pub result : Coordinator → Outcome
unfolding collect
result c = collect c 0 (count_of c.worker_count)

-- What a handler writes: a status with no body, or the answer to a join.
pub data Reply : Type 0 where
  status : ℕ → Reply
  joined_as : (id : ℤ) → RunSpec → Option ℤ → Reply

-- The first part of `handleJoin`: an error is answered at once, and a worker that is registered waits.
pub data Joining : Type 0 where
  refused : Reply → Joining
  waiting : ℤ → Joining

abbrev pub joining : Option ℤ × Coordinator → Joining × Coordinator
joining (none, c) = (refused (status 409), c)
joining (some id, c) = (waiting id, c)

pub handle_join : ℤ → (is_post : Bool) → Option ℤ → Coordinator → Joining × Coordinator
unfolding register
handle_join now false body c = (refused (status 405), c)
handle_join now true none c = (refused (status 400), c)
handle_join now true (some requested) c = joining (register now requested c)

-- The `select` of a waiting join: it answers once the barrier is open or the coordinator stops. Where
-- both channels are closed Go takes either, as `prefer_stop` says; `none` is a wait that goes on.
pub poll_join : (prefer_stop : Bool) → ℤ → Coordinator → Option Reply
poll_join prefer_stop id c =
    if c.joined_all && not (c.stopped && prefer_stop)
    then some (joined_as id c.spec c.start_at)
    else if c.stopped
    then some (status 503)
    else none

abbrev pub submitting : Bool × Coordinator → Reply × Coordinator
submitting (false, c) = (status 409, c)
submitting (true, c) = (status 204, c)

pub handle_submit : (is_post : Bool) → Option SubmitRequest → Coordinator → Reply × Coordinator
unfolding record_submit
handle_submit false body c = (status 405, c)
handle_submit true none c = (status 400, c)
handle_submit true (some req) c = submitting (record_submit req c)

-- A character before text that is trimmed already.
abbrev pub trim_step : ℕ → List ℕ → List ℕ
trim_step x [] = if eqb x b'/' then [] else x ∷ []
trim_step x (y ∷ ys) = x ∷ y ∷ ys

-- worker.go: `strings.TrimRight(addr, "/")`, on the code points of an address.
pub trim_slashes : List ℕ → List ℕ
trim_slashes [] = []
trim_slashes (x ∷ xs) = trim_step x (trim_slashes xs)

-- `strings.HasPrefix`
abbrev pub http : List ℕ
http = codes "http://"

abbrev pub https : List ℕ
https = codes "https://"

-- `normalizeURL`
pub normalize_url : List ℕ → List ℕ
normalize_url addr =
    let trimmed = trim_slashes addr in
    if has_prefix http trimmed
    then trimmed
    else if has_prefix https trimmed
    then trimmed
    else http ++ trimmed
