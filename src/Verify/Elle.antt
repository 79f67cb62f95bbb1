-- ===== src/Verify/Elle.antt =====
-- core/verify/elle.go: the history that the external checker reads, and what becomes of its output. A
-- micro-operation is kept as its parts, which the code prints as EDN; the checker's output is its code points.
use proofload_sh.Prelude.{
  ℕ, Bool, true, false, not, ◌&&◌, ◌||◌, Option, none, some, List, [], ◌∷◌, ◌++◌, if◌then◌else◌, ℤ,
  codes, contains,
}
use proofload_sh.Verify.Report.{VerifyReport, pass, fail, unknown, list_append, empty_report}
use proofload_sh.Verify.History.{Event, Family, read, write, append, other, History}

-- A micro-operation: an append, or a read with the list that it observed, if that is known.
pub data Mop : Type 0 where
  append_mop : (key : ℤ) (token : ℕ) → Mop
  read_mop : (key : ℤ) (observed : Option (List ℤ)) → Mop

abbrev is_empty : List ℤ → Bool
is_empty [] = true
is_empty (x ∷ xs) = false

-- `mops`
pub mops : Event → Bool → Family → List Mop
mops e complete append =
    append_mop e.key e.w_val
    ∷ (if complete && not (is_empty e.r_list) then read_mop e.key (some e.r_list) ∷ [] else [])
mops e complete read = read_mop e.key (if complete then some e.r_list else none) ∷ []
mops e complete write = []
mops e complete other = []

-- The `:type` of a line.
pub data Stage : Type 0 where
  invoked succeeded failed : Stage

pub record EdnLine : Type 0 where
  pub stage : Stage
  pub process : ℤ
  pub value : List Mop

event_lines : Event → List EdnLine
unfolding mops
event_lines e =
    record { stage = invoked; process = e.process; value = mops e false e.family }
    ∷ record {
      stage = if e.ok then succeeded else failed;
      process = e.process;
      value = mops e true e.family;
    }
    ∷ []

pub lines_of : List Event → List EdnLine
unfolding event_lines
lines_of [] = []
lines_of (e ∷ es) = event_lines e ++ lines_of es

-- `WriteElleEDN`, for a file that takes every line.
pub write_elle_edn : History → List EdnLine
unfolding lines_of
write_elle_edn h = lines_of h.events

-- `parseElleOutput`
pub parse_elle_output : List ℕ → VerifyReport → VerifyReport
parse_elle_output out r =
    if contains (codes ":valid? true") out
    then record r { verdict = some pass }
    else if contains (codes ":valid? false") out || contains (codes ":anomal") out
    then record r {
      verdict = some fail;
      anomalies = r.anomalies ++ record { kind = "isolation"; detail = [] } ∷ [];
    }
    else record r {
      verdict = some unknown;
      anomalies = r.anomalies ++ record { kind = "tooling"; detail = [] } ∷ [];
    }

-- `RunElle`: `none` is a checker that is not installed.
pub run_elle : Option (List ℕ) → VerifyReport
unfolding parse_elle_output
run_elle none = record empty_report {
  model = list_append;
  verdict = some unknown;
  anomalies = record { kind = "tooling"; detail = [] } ∷ [];
}
run_elle (some out) = parse_elle_output out (record empty_report { model = list_append })
