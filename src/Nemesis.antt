-- ===== src/Nemesis.antt =====
-- core/nemesis/scheduler.go, core/nemesis/rand.go, core/nemesis/controller.go: the schedule of the faults of
-- a run and its execution. What the fault script answers, and whether the run's context ends before an
-- action is due, are parameters.
pub mod Target
pub mod Order
pub mod Unroll
pub mod Healed
pub mod Examples
use Prim.Native.Nat.{bit_xor}
use Prim.Native.String.{◌++◌ as concat}
use proofload_sh.Prelude.{
  ℕ, zero, suc, ◌+◌, ◌*◌, ◌/◌, ◌%◌, Bool, true, false, not, ◌&&◌, ◌||◌, Option, none, some, List,
  [], ◌∷◌, ◌++◌, if◌then◌else◌, ℤ, pos, eqb, ltb, ltb_ℤ, leb_ℤ, eqb_ℤ, length, get_or, Dict, lookup,
  insert, without, String, ◌==◌, codes, string_eq, ◌>>=◌,
}
use proofload_sh.Prelude.Sort.{sort_stable, less_text}
use proofload_sh.Machine.{two64, add64}

pub record Node : Type 0 where
  pub id : String
  pub role : String
  pub client : String
  pub method : String
  pub ref : String
  pub namespace : String

abbrev pub bare_node : String → Node
bare_node id = record { id = id; role = ""; client = ""; method = ""; ref = ""; namespace = "" }

-- The values of the parameters are kept as the texts that `%v` prints.
pub record Fault : Type 0 where
  pub fault_type : String
  pub target : String
  pub params : Dict String String

pub record FaultSpec : Type 0 where
  pub fault : Fault
  pub start : ℤ
  pub duration : ℤ
  pub repeat : ℤ

pub record Event : Type 0 where
  pub time : ℤ
  pub injects : Bool
  pub fault_type : String
  pub node : String
  pub err : Option String

pub record Action : Type 0 where
  pub time : ℤ
  pub injects : Bool
  pub fault_type : String
  pub node : Node
  pub params : Dict String String

-- `prng.next`: SplitMix64. Returns the number and the new state.
mix : ℕ → ℕ → ℕ → ℕ
mix z shift factor = bit_xor z (z / shift) * factor % two64

pub next_random : ℕ → ℕ × ℕ
unfolding mix
next_random state =
    let s = (state + 11400714819323198485) % two64 in
    let z = mix (mix s 1073741824 13787848793156543929) 134217728 10723151780598845931 in
    (bit_xor z (z / 2147483648), s)

-- `prng.intn` for a length, which is never negative.
pub random_below : ℕ → ℕ → ℕ × ℕ
random_below zero state = (0, state)
random_below (suc n) state = let (r, s) = next_random state in (r % suc n, s)

find_node : String → List Node → Node
find_node id [] = bare_node id
find_node id (n ∷ ns) = if n.id == id then n else find_node id ns

-- `pick`: the node, and the new state of the generator.
pub pick : List Node → Fault → ℕ → Node × ℕ
unfolding find_node
pick nodes f state =
    let (i, s) = random_below (length nodes) state in
    if not (f.target == "")
    then (find_node f.target nodes, state)
    else if eqb (length nodes) 0
    then (bare_node "", state)
    else (get_or nodes i (bare_node ""), s)

pub record Occurrence : Type 0 where
  pub time : ℤ
  pub index : ℕ
  pub spec : FaultSpec

-- The offsets at which one spec occurs: the inner loop of `plan`, or `none` when the fuel runs out.
pub occurrences : ℕ → FaultSpec → ℕ → ℤ → ℤ → Option (List Occurrence)
occurrences zero sp index time window = none
occurrences (suc fuel) sp index time window =
    let rest = occurrences fuel sp index (add64 time sp.repeat) window in
    let here : Occurrence = record { time = time; index = index; spec = sp } in
    if ltb_ℤ (pos 0) window && leb_ℤ window time
    then some []
    else if leb_ℤ sp.repeat (pos 0) || leb_ℤ window (pos 0)
    then some (here ∷ [])
    else do os ← rest; some (here ∷ os)

pub all_occurrences : ℕ → List FaultSpec → ℕ → ℤ → Option (List Occurrence)
all_occurrences fuel [] index window = some []
all_occurrences fuel (sp ∷ sps) index window = do
  here ← occurrences fuel sp index sp.start window
  rest ← all_occurrences fuel sps (suc index) window
  some (here ++ rest)

pub earlier_occurrence : Occurrence → Occurrence → Bool
earlier_occurrence a b =
    if not (eqb_ℤ a.time b.time) then ltb_ℤ a.time b.time else ltb a.index b.index

pub earlier_action : Action → Action → Bool
earlier_action a b = ltb_ℤ a.time b.time

-- The actions of the occurrences, with the nodes drawn in their order.
pub actions_of : List Node → List Occurrence → ℕ → List Action
actions_of nodes [] state = []
actions_of nodes (o ∷ os) state =
    let (node, s) = pick nodes o.spec.fault state in
    let injection : Action = record {
      time = o.time;
      injects = true;
      fault_type = o.spec.fault.fault_type;
      node = node;
      params = o.spec.fault.params;
    } in
    let heal : Action = record {
      time = add64 o.time o.spec.duration;
      injects = false;
      fault_type = "";
      node = node;
      params = [];
    } in
    let rest = actions_of nodes os s in
    if ltb_ℤ (pos 0) o.spec.duration then injection ∷ heal ∷ rest else injection ∷ rest

-- `plan`, with the seed as the unsigned number that `newPRNG` makes of it.
pub plan : ℕ → List Node → ℕ → List FaultSpec → ℤ → Option (List Action)
plan fuel nodes seed specs window = do
  os ← all_occurrences fuel specs 0 window
  some (sort_stable earlier_action (actions_of nodes (sort_stable earlier_occurrence os) seed))

-- `window`, where the deadline of the context is given as its offset from the start of the run.
pub last_end : List FaultSpec → ℤ → ℤ
last_end [] longest = longest
last_end (sp ∷ sps) longest =
    let end = add64 sp.start sp.duration in
    last_end sps (if ltb_ℤ longest end then end else longest)

pub window : Option ℤ → List FaultSpec → ℤ
window none specs = last_end specs (pos 0)
window (some d) specs = if ltb_ℤ (pos 0) d then d else pos 0

-- What happens at an action: whether `waitUntil` reaches its time, and the controller's error, if any.
pub record Attempt : Type 0 where
  pub reached : Bool
  pub err : Option String

-- The loop of `Run`: the outstanding faults by the id of their node, and the timeline.
pub execute :
    List (Action × Attempt) → Dict String Node → List Event → Dict String Node × List Event
execute [] outstanding events = (outstanding, events)
execute ((a, t) ∷ rest) outstanding events =
    let injected : Event = record {
      time = a.time;
      injects = true;
      fault_type = a.fault_type;
      node = a.node.id;
      err = t.err;
    } in
    let healed : Event = record {
      time = a.time;
      injects = false;
      fault_type = "";
      node = a.node.id;
      err = t.err;
    } in
    let kept : Dict String Node = elim (t.err) [
      | none ↦ insert a.node.id a.node outstanding
      | some e ↦ outstanding
    ] in
    let after_injection = execute rest kept (events ++ injected ∷ []) in
    let after_heal = execute rest (without a.node.id outstanding) (events ++ healed ∷ []) in
    if not t.reached
    then (outstanding, events)
    else if a.injects
    then after_injection
    else after_heal

pub keys_of : Dict String Node → List String
keys_of [] = []
keys_of ((k, n) ∷ m) = k ∷ keys_of m

-- The loop of `healAll` over the sorted ids: `clock` and `answer` are the time and the controller's error
-- of the heal of a node.
module _ (clock : String → ℤ) (answer : String → Option String) where
  pub heal_each : List String → List Event → List Event
  heal_each [] events = events
  heal_each (id ∷ ids) events = heal_each ids (
      events
      ++ record { time = clock id; injects = false; fault_type = ""; node = id; err = answer id }
        ∷ [])

  -- `healAll`
  pub heal_all : Dict String Node → List Event → List Event
  unfolding less_text
  heal_all [] events = events
  heal_all (o ∷ os) events = heal_each (sort_stable less_text (keys_of (o ∷ os))) events

  -- `Run` over a plan, with what happens at each of its actions.
  pub run : List (Action × Attempt) → List Event
  run acts = let (outstanding, events) = execute acts [] [] in heal_all outstanding events

-- `refFlag`
abbrev pub ref_flag : String → String
ref_flag m =
    if m == "k8s"
    then "--pod"
    else if m == "docker"
    then "--container"
    else if m == "ssh"
    then "--host"
    else "--ref"

param_args : List (String × String) → List String
param_args [] = []
param_args ((k, v) ∷ ps) = "--param" ∷ concat (concat k "=") v ∷ param_args ps

less_param : (String × String) → (String × String) → Bool
less_param p q = less_text p.0 q.0

-- `buildArgs`
pub build_args : (injects : Bool) → (fault_type : String) → Node → Dict String String → List String
unfolding param_args less_param
build_args injects fault_type node params =
    (if injects then "inject" else "heal")
    ∷ "--method"
    ∷ node.method
    ∷ ref_flag node.method
    ∷ node.ref
    ∷ ((if not (node.namespace == "") then "--namespace" ∷ node.namespace ∷ [] else [])
        ++ (if injects
            then "--type" ∷ fault_type ∷ param_args (sort_stable less_param params)
            else []))
