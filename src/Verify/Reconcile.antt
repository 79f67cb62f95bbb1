-- ===== src/Verify/Reconcile.antt =====
-- core/verify/reconcile.go: the read-back of every expected key and the convergence of the replicas.
-- What the driver answers to a read, and to each poll of a key's replicas, is a parameter. Go leaves the order in which the expected keys are
-- visited open, so the entries are a list in any order.
pub mod Readback
pub mod Converge
pub mod Agreement
pub mod Outcome
use proofload_sh.Prelude.{
  ℕ, zero, suc, ◌+◌, Bool, true, false, not, ◌&&◌, ◌||◌, Option, none, some, ◌>>=◌, List, [], ◌∷◌,
  ◌++◌, map, if◌then◌else◌, ℤ, pos, ltb, ltb_ℤ, leb, leb_ℤ, length, take, eqb, codes, String,
}
use proofload_sh.Machine.{add64}
use proofload_sh.Verify.Report.{VerifyReport, Anomaly, pass, fail, empty_report, reconciliation}
use proofload_sh.Verify.Checksum.{checksum}
use proofload_sh.Verify.Log.{WriteRecord}

-- An observed value: nil, a byte slice, which may be a nil slice, a string, or another type.
pub data Observed : Type 0 where
  nothing nil_bytes other : Observed
  bytes text : List ℕ → Observed

-- `coerceBytes`: the bytes, and whether the key is present.
unfoldable pub coerce_bytes : Observed → List ℕ × Bool
coerce_bytes nothing = ([], false)
coerce_bytes nil_bytes = ([], false)
coerce_bytes other = ([], false)
coerce_bytes (bytes b) = (b, true)
coerce_bytes (text s) = (s, true)

-- The result of an operation: what was observed, and whether it failed.
pub record OpResult : Type 0 where
  pub observed : Observed
  pub failed : Bool

pub record Options : Type 0 where
  pub convergence_sample : ℤ
  pub convergence_timeout : ℤ

lose : ℤ → VerifyReport → VerifyReport
lose key r = record r {
  anomalies = r.anomalies ++ record { kind = "data-loss"; detail = key ∷ [] } ∷ [];
  lost = add64 r.lost (pos 1);
}

corrupt : ℤ → ℕ → ℕ → VerifyReport → VerifyReport
corrupt key got want r = record r {
  anomalies =
      r.anomalies ++ record { kind = "corruption"; detail = key ∷ pos got ∷ pos want ∷ [] } ∷ [];
}

-- One round of the loop of `readBack`.
pub check_key : OpResult → ℤ → WriteRecord → VerifyReport → VerifyReport
unfolding lose corrupt
check_key res key want r =
    let (b, present) = coerce_bytes res.observed in
    if res.failed || not present
    then lose key r
    else if eqb (checksum b) want.checksum
    then r
    else corrupt key (checksum b) want.checksum r

module _ (execute : ℤ → OpResult) where
  -- `readBack`
  pub read_back : List (ℤ × WriteRecord) → VerifyReport → VerifyReport
  read_back [] r = r
  read_back ((key, want) ∷ es) r = read_back es (check_key (execute key) key want r)

-- The replicas' answers for one key: `none` is an error of the read.
pub agree_with : ℕ → List (Option Observed) → Option Bool
agree_with first [] = some true
agree_with first (none ∷ ns) = none
agree_with first (some o ∷ ns) =
    let rest = agree_with first ns in
    if eqb (checksum (coerce_bytes o).0) first then rest else some false

-- `nodesAgree`, where `none` is the error.
pub nodes_agree : List (Option Observed) → Option Bool
nodes_agree [] = some true
nodes_agree (none ∷ ns) = none
nodes_agree (some o ∷ ns) = agree_with (checksum (coerce_bytes o).0) ns

-- One poll of a key: the replicas' answers, the time since the start of the polling after them, and
-- whether the context ends before the next poll.
pub record Poll : Type 0 where
  pub answers : List (Option Observed)
  pub elapsed : ℤ
  pub cancelled : Bool

-- Whether the key converged, how long it took, and whether an error ended the polling.
pub record Converged : Type 0 where
  pub converged : Bool
  pub took : ℤ
  pub failed : Bool

-- `convergeKey` over the polls that are made. `none` is a polling that has not ended with them.
pub converge_key : ℤ → List Poll → Option Converged
converge_key timeout [] = none
converge_key timeout (p ∷ ps) =
    let rest = converge_key timeout ps in
    let after_disagreement =
      if leb_ℤ timeout (pos 0) || leb_ℤ timeout p.elapsed
      then some (record { converged = false; took = p.elapsed; failed = false })
      else if p.cancelled
      then some (record { converged = false; took = p.elapsed; failed = true })
      else rest in
    elim (nodes_agree p.answers) [
      | none ↦ some (record { converged = false; took = p.elapsed; failed = true })
      | some true ↦ some (record { converged = true; took = p.elapsed; failed = false })
      | some false ↦ after_disagreement
    ]

abbrev pub count_of : ℤ → ℕ
count_of (pos n) = n
count_of _ = 0

-- `sampleKeys`: the first keys that the map yields, at most `n`.
unfoldable pub sample_keys : List (ℤ × WriteRecord) → ℤ → List ℤ
sample_keys es n = take (count_of n) (map (λ (e : ℤ × WriteRecord). e.0) es)

diverge : ℤ → ℤ → VerifyReport → VerifyReport
diverge key timeout r = record r {
  anomalies = r.anomalies ++ record { kind = "divergence"; detail = key ∷ timeout ∷ [] } ∷ [];
}

abbrev pub max_ℤ : ℤ → ℤ → ℤ
max_ℤ a b = if ltb_ℤ a b then b else a

-- `checkConvergence` over the polls that are made of each key. `none` is a polling that has not ended with
-- them.
module _ (polls : ℤ → List Poll) (timeout : ℤ) where
  -- The loop over the sampled keys.
  pub check_keys : List ℤ → ℤ → VerifyReport → Option (ℤ × VerifyReport)
  unfolding diverge converge_key
  check_keys [] stale r = some (stale, r)
  check_keys (key ∷ ks) stale r =
      (converge_key timeout (polls key) >>= λ (c : Converged).
      check_keys ks (max_ℤ stale c.took)
        (if c.failed || not c.converged then diverge key timeout r else r))

  pub check_convergence :
      (nodes : ℕ)
      → (phase : ℤ) → List (ℤ × WriteRecord)
      → Options
      → VerifyReport
      → Option VerifyReport
  unfolding check_keys
  check_convergence nodes phase es o r =
      let checked : Option VerifyReport =
        check_keys (sample_keys es o.convergence_sample) (pos 0) r >>= λ (c : ℤ × VerifyReport).
        some (record (c.1) { max_staleness = c.0; converged_in = phase }) in
      if leb nodes 1 || leb_ℤ o.convergence_sample (pos 0) then some r else checked

abbrev pub is_empty {ℓ} : {A : Type ℓ} → List A → Bool
is_empty [] = true
is_empty (x ∷ xs) = false

set_verdict : VerifyReport → VerifyReport
set_verdict r =
    if ltb_ℤ (pos 0) r.lost || not (is_empty r.anomalies)
    then record r { verdict = some fail }
    else record r { verdict = some pass }

-- What `Reconcile` returns: the report, and whether there is an error.
pub record Reconciled : Type 0 where
  pub report : VerifyReport
  pub failed : Bool

-- What the report says before any key is read.
abbrev pub fresh_report : List (ℤ × WriteRecord) → VerifyReport
fresh_report es = record empty_report { model = reconciliation; checked = pos (length es) }

-- `Reconcile`: whether the connection is made and prepared, what it answers to the read of a key, the polls of
-- each key's replicas, and whether the driver is cluster-aware. `none` is a polling that has not ended with
-- its polls.
pub reconcile :
    (connects prepares : Bool) (execute : ℤ → OpResult) (polls : ℤ → List Poll) (cluster : Bool)
    (nodes : ℕ) (phase : ℤ)
    → List (ℤ × WriteRecord)
    → Options
    → Option Reconciled
unfolding set_verdict
reconcile connects prepares execute polls cluster nodes phase es o =
    let read = read_back execute es (fresh_report es) in
    let compared : Option VerifyReport =
      if cluster
      then check_convergence polls o.convergence_timeout nodes phase es o read
      else some read in
    let done : Option Reconciled =
      compared >>= λ (r : VerifyReport). some (record { report = set_verdict r; failed = false }) in
    if connects && prepares then done else some (record { report = fresh_report es; failed = true })
