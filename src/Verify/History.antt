-- ===== src/Verify/History.antt =====
-- core/verify/history.go and historyio.go: the events of a run that the checkers of consistency read. A line
-- of the file is blank, an event that `json.Unmarshal` decodes, or one that it refuses.
pub mod Index
pub mod Keys
use proofload_sh.Prelude.{
  ℕ, suc, Bool, true, false, not, ◌&&◌, Option, none, some, List, [], ◌∷◌, ◌++◌, map, if◌then◌else◌,
  ℤ, pos, ltb_ℤ, Dict, lookup, insert, int_eq, lower, contains, codes,
}
use proofload_sh.Prelude.Sort.{sort_stable}
use proofload_sh.Machine.{wrap}
use proofload_sh.Verify.Checksum.{checksum}
use proofload_sh.Verify.Log.{Result, ok, err, Error, bad_line, scan_failed}
use proofload_sh.Verify.Reconcile.{Observed, coerce_bytes}

-- The operation families; a decoded history may hold any other text.
pub data Family : Type 0 where
  read write append other : Family

-- `Event`
pub record Event : Type 0 where
  pub process : ℤ
  pub family : Family
  pub key : ℤ
  pub w_val : ℕ
  pub r_val : ℕ
  pub r_list : List ℤ
  pub invoke : ℤ
  pub complete : ℤ
  pub ok : Bool

-- An observed value: one of the slices that `observedList` accepts, or another value.
pub data Answer : Type 0 where
  integers : List ℤ → Answer
  unsigneds : List ℕ → Answer
  byte_slices : List (List ℕ) → Answer
  plain : Observed → Answer

-- `isAppendOp`
pub is_append_op : List ℕ → Bool
is_append_op op_type = contains (codes "append") (map lower op_type)

-- `observedList`
pub observed_list : Answer → Option (List ℤ)
unfolding checksum
observed_list (integers xs) = some xs
observed_list (unsigneds xs) = some (map (λ x. wrap (pos x)) xs)
observed_list (byte_slices xs) = some (map (λ b. wrap (pos (checksum b))) xs)
observed_list (plain o) = none

abbrev pub list_or_empty : Option (List ℤ) → List ℤ
list_or_empty none = []
list_or_empty (some xs) = xs

-- The checksum that a read keeps of a value that is not a list.
scalar_of : Answer → ℕ
unfolding coerce_bytes
scalar_of (plain o) = let (b, present) = coerce_bytes o in if present then checksum b else 0
scalar_of _ = 0

-- What `Observe` is told of an operation and its result.
pub record Observation : Type 0 where
  pub op_type : List ℕ
  pub key : ℤ
  pub value : List ℕ
  pub observed : Answer
  pub failed : Bool
  pub invoke : ℤ
  pub complete : ℤ

abbrev is_empty : List ℕ → Bool
is_empty [] = true
is_empty (x ∷ xs) = false

-- `Observe`: the event that is appended.
pub observe : ℤ → Observation → Event
unfolding is_append_op observed_list scalar_of
observe process o =
    let base : Event = record {
      process = process;
      family = write;
      key = o.key;
      w_val = 0;
      r_val = 0;
      r_list = [];
      invoke = o.invoke;
      complete = o.complete;
      ok = not o.failed;
    } in
    if is_append_op o.op_type
    then record base {
      family = append;
      w_val = checksum o.value;
      r_list = list_or_empty (observed_list o.observed);
    }
    else if is_empty o.value
    then record base {
      family = read;
      r_list = list_or_empty (observed_list o.observed);
      r_val = scalar_of o.observed;
    }
    else record base { w_val = checksum o.value }

pub data Line : Type 0 where
  blank malformed : Line
  recorded : Event → Line

-- `History`
pub record History : Type 0 where
  pub events : List Event
  pub by_process : Dict ℤ (List Event)
  pub by_key : Dict ℤ (List Event)

abbrev pub events_or_empty : Option (List Event) → List Event
events_or_empty none = []
events_or_empty (some es) = es

-- `append` to the entry of a map.
pub add_event : ℤ → Event → Dict ℤ (List Event) → Dict ℤ (List Event)
add_event k e m = insert k (events_or_empty (lookup k m) ++ e ∷ []) m

abbrev pub empty_history : History
empty_history = record { events = []; by_process = []; by_key = [] }

-- One event in the loop of `readHistory`.
pub add_to_history : Event → History → History
unfolding add_event
add_to_history e h = record {
  events = h.events ++ e ∷ [];
  by_process = add_event e.process e h.by_process;
  by_key = add_event e.key e h.by_key;
}

-- The loop from line `n` on; `failed` says that the scanner ends with an error.
pub read_lines : Bool → ℕ → List Line → History → Result History
unfolding add_to_history
read_lines failed n [] h = if failed then err scan_failed else Result.ok h
read_lines failed n (blank ∷ ls) h = read_lines failed (suc n) ls h
read_lines failed n (malformed ∷ ls) h = err (bad_line n)
read_lines failed n (recorded e ∷ ls) h = read_lines failed (suc n) ls (add_to_history e h)

-- `readHistory`
pub read_history : Bool → List Line → Result History
unfolding read_lines
read_history failed ls = read_lines failed 1 ls empty_history

-- `ByProcess` and `ByKey`
pub by_process_of : ℤ → History → List Event
by_process_of p h = events_or_empty (lookup p h.by_process)

pub by_key_of : ℤ → History → List Event
by_key_of k h = events_or_empty (lookup k h.by_key)

pub keys_of_entries : Dict ℤ (List Event) → List ℤ
keys_of_entries [] = []
keys_of_entries ((k, es) ∷ m) = k ∷ keys_of_entries m

-- `Keys`
pub keys : History → List ℤ
unfolding keys_of_entries
keys h = sort_stable ltb_ℤ (keys_of_entries h.by_key)
