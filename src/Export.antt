-- ===== src/Export.antt =====
-- core/export: the exporters of the time series. A text that is sent is its code points; `strconv.FormatFloat`
-- is a parameter of the definitions that print a float64.
use proofload_sh.Prelude.{
  ℕ, ◌+◌, Bool, true, false, ◌||◌, ◌&&◌, Option, none, some, List, [], ◌∷◌, ◌++◌, if◌then◌else◌,
  ltb, eqb, String, ◌==◌, string_eq, Dict, insert, codes, ℤ, ltb_ℤ, leb_ℤ, pos,
}
pub mod Influx
pub mod Pushgateway
pub mod Tags
pub mod Request
pub mod Examples

abbrev pub backslash : ℕ
backslash = 92

abbrev pub comma : ℕ
comma = 44

abbrev pub equals : ℕ
equals = 61

abbrev pub space : ℕ
space = 32

abbrev pub quote : ℕ
quote = 34

abbrev pub newline : ℕ
newline = 10

-- The labels of the caller over the tag `op`: an equal key keeps the caller's label.
unfoldable pub with_labels : Dict String String → Dict String String → Dict String String
with_labels tags [] = tags
with_labels tags ((k, v) ∷ labels) = with_labels (insert k v tags) labels

unfoldable pub with_op : String → Dict String String → Dict String String
unfolding with_labels
with_op op labels = with_labels (("op", op) ∷ []) labels

-- What an HTTP client answers.
pub data Answer : Type 0 where
  unsent : Answer
  answered : (status : ℤ) → Answer

pub data Failure : Type 0 where
  bad_request : Failure
  not_posted : Failure
  returned : (status : ℤ) → Failure

-- `postBody`: `none` is a body that was taken.
unfoldable pub post_body : (builds : Bool) → Answer → Option Failure
post_body false answer = some bad_request
post_body true unsent = some not_posted
post_body true (answered status) =
    if ltb_ℤ status (pos 200) || leb_ℤ (pos 300) status then some (returned status) else none

-- `New`
pub data Exporter : Type 0 where
  influx : (write_url : List ℕ) → Exporter
  pushgateway : (push_url : List ℕ) → Exporter

-- `strings.TrimRight(s, "/")`
trim_slashes : List ℕ → List ℕ
trim_slashes [] = []
trim_slashes (c ∷ cs) = elim (trim_slashes cs) [
  | [] ↦ if eqb c 47 then [] else c ∷ []
  | d ∷ ds ↦ c ∷ d ∷ ds
]

unfoldable pub new_pushgateway : List ℕ → List ℕ → Exporter
unfolding trim_slashes
new_pushgateway base_url job = pushgateway (trim_slashes base_url ++ codes "/metrics/job/" ++ job)

abbrev pub default_job : List ℕ
default_job = codes "proofload"

unfoldable pub new : String → List ℕ → Option Exporter
unfolding new_pushgateway
new kind url =
    if kind == "influx"
    then some (influx url)
    else if kind == "pushgateway"
    then some (new_pushgateway url default_job)
    else none
