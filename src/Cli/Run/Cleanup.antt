-- ===== src/Cli/Run/Cleanup.antt =====
-- What a run cleans up, whichever of its stages fails.
use proofload_sh.Prelude.{
  ℕ, ltb_ℤ, pos, ◌||◌, ◌+◌, ◌≡◌, refl, sym, subst, arith, Bool, true, false, not, ◌&&◌, Option,
  none, some, List, [], ◌∷◌, ◌++◌, if◌then◌else◌, String, is_some, ◌==◌, string_eq,
}
use proofload_sh.Prelude.Sort.{tally}
use proofload_sh.Cli.Faults.{
  NemesisRun, launched, cancelled, Created, created, refused, begin, stop, new_nemesis,
}
use proofload_sh.Nemesis.{FaultSpec, Node}
use proofload_sh.Cli.Run.{
  RunFlags, Ensured, Act, cluster_up, cluster_down, recording_made, recording_cleaned, fault,
  Stages, drive, with_faults, with_nemesis, with_verification, with_recording, do_run,
}
use proofload_sh.Cli.Verification.{new_verification}
use proofload_sh.Workload.{OpSpec}

abbrev pub is_up : Act → Bool
is_up cluster_up = true
is_up _ = false

abbrev pub is_down : Act → Bool
is_down cluster_down = true
is_down _ = false

abbrev pub is_made : Act → Bool
is_made recording_made = true
is_made _ = false

abbrev pub is_cleaned : Act → Bool
is_cleaned recording_cleaned = true
is_cleaned _ = false

abbrev pub is_launched : Act → Bool
is_launched (fault launched) = true
is_launched _ = false

abbrev pub is_cancelled : Act → Bool
is_cancelled (fault cancelled) = true
is_cancelled _ = false

abbrev fresh : Bool → NemesisRun
fresh scheduled = record { scheduled = scheduled; started = false; stopped = false }

tally-append :
    (test : Act → Bool) (xs ys : List Act) → tally test (xs ++ ys) ≡ tally test xs + tally test ys
tally-append test [] ys = omega arith
tally-append test (x ∷ xs) ys = omega (arith, tally-append test xs ys)

-- What a list of acts starts, it also ends, except for some recordings, and it leaves the cluster alone.
record Balanced (left : ℕ) (acts : List Act) : Type 0 where
  faults : tally is_launched acts ≡ tally is_cancelled acts
  recordings : tally is_made acts ≡ tally is_cleaned acts + left
  downs : tally is_down acts ≡ 0

with_faults-Balanced :
    (s : Stages) (scheduled : Bool) → Balanced 0 (with_faults s (fresh scheduled))
unfolding with_faults drive begin stop
with_faults-Balanced s true = record {
  faults = ground arith;
  recordings = ground arith;
  downs = ground arith;
}
with_faults-Balanced s false = record {
  faults = ground arith;
  recordings = ground arith;
  downs = ground arith;
}

-- A run's nemesis is fresh when it is created.
abbrev IsFresh : Created → Type 0
IsFresh (refused r) = Unit
IsFresh (created n specs) = (scheduled : Bool) × (n ≡ fresh scheduled)

if-IsFresh : (b : Bool) (c d : Created) → IsFresh c → IsFresh d → IsFresh (if b then c else d)
if-IsFresh true c d h k = h
if-IsFresh false c d h k = k

new_nemesis-IsFresh :
    (flag : String) (schedule : Option (List FaultSpec)) (nodes : List Node) (found : Bool)
    → IsFresh (new_nemesis flag schedule nodes found)
unfolding new_nemesis
new_nemesis-IsFresh flag none nodes found = if-IsFresh (flag == "") _ _ (false, refl) tt
new_nemesis-IsFresh flag (some specs) [] found = if-IsFresh (flag == "") _ _ (false, refl) tt
new_nemesis-IsFresh flag (some specs) (x ∷ nodes) found =
    if-IsFresh (flag == "") _ _ (false, refl) (if-IsFresh (not found) _ _ tt (true, refl))

with_nemesis-Balanced : (s : Stages) (c : Created) → IsFresh c → Balanced 0 (with_nemesis s c)
unfolding with_nemesis
with_nemesis-Balanced s (refused r) h = record { faults = refl; recordings = refl; downs = refl }
with_nemesis-Balanced s (created n specs) (scheduled, h) =
    subst (λ (m : NemesisRun). Balanced 0 (with_faults s m)) (sym h)
      (with_faults-Balanced s scheduled)

-- The models for which a run records something.
abbrev pub records : String → Bool
records model = model == "reconciliation" || model == "register" || model == "list-append"

-- The file to record in is made but not opened.
abbrev pub unopened : Stages → Bool
unopened s = records s.model && s.file_made && not s.writer_opened

with_verification-Balanced :
    (model : String) (ops : List OpSpec) (made opened : Bool) (body : List Act)
    → Balanced 0 body
    → Balanced
        (if records model && made && not opened then 1 else 0)
        (with_verification (new_verification model ops made opened) made body)
unfolding with_verification new_verification
with_verification-Balanced model ops made opened body b =
    let more = λ (test : Act → Bool). tally-append test body (recording_cleaned ∷ []) in
    record {
      faults = ground (arith, b.faults, more is_launched, more is_cancelled);
      recordings = ground (arith, b.recordings, more is_made, more is_cleaned);
      downs = ground (arith, b.downs, more is_down);
    }

with_recording-Balanced : (s : Stages) → Balanced (if unopened s then 1 else 0) (with_recording s)
unfolding with_recording
with_recording-Balanced s =
    let c = new_nemesis s.fault_flag s.schedule s.nodes s.script_found in
    with_verification-Balanced s.model s.ops s.file_made s.writer_opened (with_nemesis s c) (
      with_nemesis-Balanced s c
        (new_nemesis-IsFresh s.fault_flag s.schedule s.nodes s.script_found))

-- Around a body that leaves a recording behind or not, a run leaves it behind if it gets to the body.
around-recordings :
    (o : Option (List String)) (up down test_type coordinates schema left : Bool) (body : List Act)
    → tally is_made body ≡ tally is_cleaned body + (if left then 1 else 0)
    → let opened : List Act = if not test_type || coordinates || not schema then [] else body in
      let whole : List Act = (if up then cluster_up ∷ [] else []) ++ (elim o [
        | none ↦ []
        | some endpoints ↦ opened ++ (if down then cluster_down ∷ [] else [])
      ]) in
      tally is_made whole
      ≡ tally is_cleaned whole
        + (if is_some o && test_type && not coordinates && schema && left then 1 else 0)
around-recordings o up down test_type coordinates schema left body h =
    let more = λ (test : Act → Bool). tally-append test body (cluster_down ∷ []) in
    let none_more = λ (test : Act → Bool). tally-append test body [] in
    ground (arith, h, more is_made, more is_cleaned, none_more is_made, none_more is_cleaned)

-- Whether a run gets as far as its verification, and the temporary file for it is made but not opened.
abbrev pub left_behind : RunFlags → Ensured → Stages → Bool
left_behind f e s =
    is_some e.endpoints && s.test_type && not (ltb_ℤ (pos 0) f.workers) && s.schema && unopened s

-- Whichever stages of a run fail: its fault scheduler is cancelled as often as it is launched, the
-- temporary file that it makes for the verification is cleaned up as often as it is made, but for one that is made
-- and cannot be opened, which is left behind, and the cluster is torn down once when one was brought up to be torn
-- down and has an endpoint, and is not torn down otherwise.
pub do_run-cleanup :
    (f : RunFlags) (e : Ensured) (s : Stages)
    → (tally is_launched (do_run f e s) ≡ tally is_cancelled (do_run f e s))
      × (tally is_made (do_run f e s)
          ≡ tally is_cleaned (do_run f e s) + (if left_behind f e s then 1 else 0))
      × (tally is_down (do_run f e s) ≡ (if e.tears_down && is_some e.endpoints then 1 else 0))
unfolding do_run
do_run-cleanup f e s =
    let b = with_recording-Balanced s in
    let body = with_recording s in
    let more = λ (test : Act → Bool). tally-append test body (cluster_down ∷ []) in
    let none_more = λ (test : Act → Bool). tally-append test body [] in
    (
      ground (
        arith,
        b.faults,
        more is_launched,
        more is_cancelled,
        none_more is_launched,
        none_more is_cancelled,
      ),
      around-recordings e.endpoints e.brought_up e.tears_down s.test_type (ltb_ℤ (pos 0) f.workers)
          s.schema (unopened s) body b.recordings,
      ground (arith, b.downs, more is_down, none_more is_down),
    )
