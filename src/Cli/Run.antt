-- ===== src/Cli/Run.antt =====
-- core/cli/run.go: the flags that override the configuration, the endpoints of a run, and the order in which a run
-- sets its parts up and cleans them up. Whether a stage succeeds is an argument; the stages themselves are
-- modelled with their components.
pub mod Cleanup
use proofload_sh.Prelude.{
  ℕ, Bool, true, false, not, ◌&&◌, ◌||◌, Option, none, some, List, [], ◌∷◌, ◌++◌, map,
  if◌then◌else◌, ℤ, pos, ltb_ℤ, String, ◌==◌, string_eq, Dict,
}
use proofload_sh.Config.Resolve.{Value, number, text, texts}
use proofload_sh.Cli.Faults.{
  NemesisRun, Effect, Created, created, refused, begin, stop, new_nemesis,
}
use proofload_sh.Cli.Verification.{Recording, nothing, expectations, history, new_verification}
use proofload_sh.Nemesis.{FaultSpec, Node}
use proofload_sh.Workload.{OpSpec}

-- The fields of `runFlags` that this file reads; `changed` says which flags were set.
pub record RunFlags : Type 0 where
  pub connections : ℤ
  pub duration : ℤ
  pub warmup : ℤ
  pub consistency : String
  pub endpoints : List String
  pub rate : ℤ
  pub provision : String
  pub keep : Bool
  pub workers : ℤ
  pub changed : String → Bool

abbrev pub entry_if : Bool → String → Value → Dict String Value
entry_if b key v = if b then (key, v) ∷ [] else []

-- `overrides`
pub overrides : RunFlags → Dict String Value
overrides f =
    entry_if (f.changed "connections") "connections" (number f.connections)
    ++ (entry_if (f.changed "duration") "duration" (number f.duration)
        ++ (entry_if (f.changed "warmup") "warmup" (number f.warmup)
            ++ (entry_if (f.changed "consistency") "consistency" (text f.consistency)
                ++ (entry_if (f.changed "endpoints") "endpoints" (texts f.endpoints)
                    ++ entry_if (ltb_ℤ (pos 0) f.rate) "ops_per_sec" (number f.rate)))))

-- The clients of a cluster's nodes: a node without one only coordinates.
pub client_endpoints : List String → List String
client_endpoints [] = []
client_endpoints (c ∷ cs) = if c == "" then client_endpoints cs else c ∷ client_endpoints cs

abbrev pub is_empty : List String → Bool
is_empty [] = true
is_empty (x ∷ xs) = false

-- What `ensureEndpoints` returns: the endpoints, or the error for having none or of a stage; and whether it
-- brought a cluster up and its teardown brings that down.
pub record Ensured : Type 0 where
  pub endpoints : Option (List String)
  pub brought_up : Bool
  pub tears_down : Bool

abbrev pub ensured : List String → Bool → Bool → Ensured
ensured endpoints up down = record {
  endpoints = if is_empty endpoints then none else some endpoints;
  brought_up = up;
  tears_down = down;
}

-- `ensureEndpoints`: whether the backend is known, and the nodes' clients if `Up` succeeds.
pub ensure_endpoints : RunFlags → List String → (known : Bool) → Option (List String) → Ensured
unfolding client_endpoints
ensure_endpoints f configured known up =
    let failed : Ensured = record { endpoints = none; brought_up = false; tears_down = false } in
    let provisioned : Ensured = elim up [
      | none ↦ failed
      | some clients ↦ ensured (client_endpoints clients) true (not f.keep)
    ] in
    if f.provision == ""
    then ensured configured false false
    else if known
    then provisioned
    else failed

-- What a run does to what it must clean up.
pub data Act : Type 0 where
  cluster_up cluster_down recording_made recording_cleaned loaded : Act
  fault : Effect → Act

-- Whether the stages of a run succeed, and what `newVerification` and `newNemesis` are told: the model that
-- verifies the run with the operations of its workload, whether the temporary file to record in is made, and
-- whether that is then closed and opened for writing.
pub record Stages : Type 0 where
  pub test_type : Bool
  pub schema : Bool
  pub model : String
  pub ops : List OpSpec
  pub file_made : Bool
  pub writer_opened : Bool
  pub workload : Bool
  pub wait : Bool
  pub load : Bool
  pub fault_flag : String
  pub schedule : Option (List FaultSpec)
  pub nodes : List Node
  pub script_found : Bool

-- `drive`, up to the load: whether it succeeds, the nemesis and what was done.
pub drive : Stages → NemesisRun → Bool × NemesisRun × List Act
unfolding begin
drive s n =
    let (n', effects) = begin n in
    if s.workload && s.wait then (s.load, n', map fault effects ++ loaded ∷ []) else (false, n, [])

-- `doRun` from the load on, to where its deferred calls begin: `stop` runs once the load has been driven, and
-- again when `doRun` returns. The artifacts and the report of the verification come between the two.
pub with_faults : Stages → NemesisRun → List Act
unfolding drive stop
with_faults s n =
    let (ok, n1, acts) = drive s n in
    let (n2, stopped) = stop n1 in
    let (n3, again) = stop n2 in
    if ok then acts ++ (map fault stopped ++ map fault again) else acts ++ map fault stopped

-- `doRun` from the nemesis on.
pub with_nemesis : Stages → Created → List Act
unfolding with_faults
with_nemesis s (refused r) = []
with_nemesis s (created n specs) = with_faults s n

-- `doRun` from what `newVerification` returned on: its cleanup is deferred only when there is no error, so that
-- an error after the temporary file has been made leaves that file.
pub with_verification : Option Recording → (file_made : Bool) → List Act → List Act
with_verification none file_made body = if file_made then recording_made ∷ [] else []
with_verification (some nothing) file_made body = body
with_verification (some (expectations op)) file_made body =
    recording_made ∷ (body ++ recording_cleaned ∷ [])
with_verification (some history) file_made body = recording_made ∷ (body ++ recording_cleaned ∷ [])

-- `doRun` from the verification on.
pub with_recording : Stages → List Act
unfolding with_nemesis new_verification with_verification
with_recording s =
    with_verification (new_verification s.model s.ops s.file_made s.writer_opened) s.file_made
      (with_nemesis s (new_nemesis s.fault_flag s.schedule s.nodes s.script_found))

-- `doRun` from the endpoints on. A coordinator has none of the later stages.
pub do_run : RunFlags → Ensured → Stages → List Act
unfolding with_recording
do_run f e s =
    let body =
      if not s.test_type || ltb_ℤ (pos 0) f.workers || not s.schema then [] else with_recording s in
    let up : List Act = if e.brought_up then cluster_up ∷ [] else [] in
    let down : List Act = if e.tears_down then cluster_down ∷ [] else [] in
    up ++ (elim e.endpoints [ none ↦ [] | some endpoints ↦ body ++ down ])
