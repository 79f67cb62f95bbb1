-- ===== src/Cli/Faults.antt =====
-- core/cli/faults.go: the fault schedule of a run and the life of its scheduler. The decoded entries of the
-- schedule file and the reading of a duration's text by time.ParseDuration are arguments.
pub mod Lifecycle
use proofload_sh.Prelude.{
  ℕ, suc, Bool, true, false, not, ◌&&◌, ◌||◌, Option, none, some, List, [], ◌∷◌, ◌++◌,
  if◌then◌else◌, ℤ, pos, String, ◌==◌, string_eq, Dict,
}
use proofload_sh.Nemesis.{FaultSpec, Fault, Node}

-- `faultDTO`
pub record FaultEntry : Type 0 where
  pub type : String
  pub target : String
  pub at : String
  pub duration : String
  pub repeat : String
  pub params : Dict String String

-- The durations of an entry.
pub data Field : Type 0 where
  at_field duration_field repeat_field : Field

pub data Loading {ℓ} (A : Type ℓ) : Type ℓ where
  loaded : A → Loading A
  bad_fault : ℕ → Field → Loading A

abbrev pub and_then {ℓ κ} : {A : Type ℓ} {B : Type κ} → Loading A → (A → Loading B) → Loading B
and_then (loaded a) f = f a
and_then (bad_fault i field) f = bad_fault i field

module _ (parse : String → Option ℤ) where
  -- `parseDurOrZero`
  pub parse_dur_or_zero : String → Option ℤ
  parse_dur_or_zero s = if s == "" then some (pos 0) else parse s

  abbrev pub duration_of : ℕ → Field → String → Loading ℤ
  duration_of i field s = elim (parse_dur_or_zero s) [
    | none ↦ bad_fault i field
    | some d ↦ loaded d
  ]

  -- One entry in the loop of `loadFaultSchedule`.
  pub fault_spec : ℕ → FaultEntry → Loading FaultSpec
  unfolding parse_dur_or_zero
  fault_spec i d = and_then (duration_of i at_field d.at) (λ (at : ℤ).
      and_then (duration_of i duration_field d.duration) (λ (duration : ℤ).
        and_then (duration_of i repeat_field d.repeat) (λ (repeat : ℤ). loaded (record {
          fault = record { fault_type = d.type; target = d.target; params = d.params };
          start = at;
          duration = duration;
          repeat = repeat;
        }))))

  -- The loop from entry i on.
  pub fault_specs : ℕ → List FaultEntry → Loading (List FaultSpec)
  unfolding fault_spec
  fault_specs i [] = loaded []
  fault_specs i (d ∷ ds) = and_then (fault_spec i d) (λ (sp : FaultSpec).
      and_then (fault_specs (suc i) ds) (λ (rest : List FaultSpec). loaded (sp ∷ rest)))

  -- `loadFaultSchedule`, of the entries in the file.
  pub load_fault_schedule : List FaultEntry → Loading (List FaultSpec)
  unfolding fault_specs
  load_fault_schedule ds = fault_specs 0 ds

-- `nemesisRun`: whether it has a scheduler, and its two flags.
pub record NemesisRun : Type 0 where
  pub scheduled : Bool
  pub started : Bool
  pub stopped : Bool

-- What is done to the scheduler's goroutine.
pub data Effect : Type 0 where
  launched cancelled : Effect

-- `begin`
unfoldable pub begin : NemesisRun → NemesisRun × List Effect
begin n =
    if not n.scheduled || n.started then (n, []) else (record n { started = true }, launched ∷ [])

-- `stop`
unfoldable pub stop : NemesisRun → NemesisRun × List Effect
stop n =
    if not n.started || n.stopped then (n, []) else (record n { stopped = true }, cancelled ∷ [])

pub data Call : Type 0 where
  begin_call stop_call : Call

-- The calls of a run, in any order, and what they do.
pub call_all : List Call → NemesisRun → List Effect
unfolding begin stop
call_all [] n = []
call_all (begin_call ∷ cs) n = let (n', effects) = begin n in effects ++ call_all cs n'
call_all (stop_call ∷ cs) n = let (n', effects) = stop n in effects ++ call_all cs n'

-- Why `newNemesis` refuses.
pub data Refusal : Type 0 where
  bad_schedule no_nodes no_script : Refusal

pub data Created : Type 0 where
  created : NemesisRun → List FaultSpec → Created
  refused : Refusal → Created

abbrev is_empty : List Node → Bool
is_empty [] = true
is_empty (x ∷ xs) = false

-- `newNemesis`: `none` is a schedule that was not loaded.
unfoldable pub new_nemesis :
    (flag : String) → Option (List FaultSpec) → List Node → (script_found : Bool) → Created
new_nemesis flag schedule nodes script_found =
    let with_specs : List FaultSpec → Created = λ specs.
      if is_empty nodes
      then refused no_nodes
      else if not script_found
      then refused no_script
      else created (record { scheduled = true; started = false; stopped = false }) specs in
    let loaded : Created = elim schedule [
      | none ↦ refused bad_schedule
      | some specs ↦ with_specs specs
    ] in
    if flag == ""
    then created (record { scheduled = false; started = false; stopped = false }) []
    else loaded
