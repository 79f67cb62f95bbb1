-- ===== src/Verify/Log.antt =====
-- core/verify/log.go: the expectation log, reduced to the last write of each key. A line of the file is
-- blank, a record that `json.Unmarshal` decodes, or one that it refuses.
pub mod LastWrite
use proofload_sh.Prelude.{
  ℕ, suc, Bool, true, false, ◌||◌, not, Option, none, some, List, [], ◌∷◌, if◌then◌else◌, int_eq, ℤ,
  leb_ℤ, Dict, lookup, insert,
}

pub record WriteRecord : Type 0 where
  pub key : ℤ
  pub checksum : ℕ
  pub seq : ℤ

pub data Line : Type 0 where
  blank malformed : Line
  written : WriteRecord → Line

pub data Error : Type 0 where
  bad_line : ℕ → Error
  scan_failed : Error

pub data Result {ℓ} (A : Type ℓ) : Type ℓ where
  ok : A → Result A
  err : Error → Result A

-- Whether a record replaces the one that is held for its key.
abbrev pub replaces : WriteRecord → Option WriteRecord → Bool
replaces r none = true
replaces r (some cur) = leb_ℤ cur.seq r.seq

unfoldable pub keep_record : WriteRecord → Dict ℤ WriteRecord → Dict ℤ WriteRecord
keep_record r m = if replaces r (lookup r.key m) then insert r.key r m else m

-- The scan from line `n` on; `failed` says that the scanner ends with an error.
unfoldable pub scan : Bool → ℕ → List Line → Dict ℤ WriteRecord → Result (Dict ℤ WriteRecord)
unfolding keep_record
scan failed n [] m = if failed then err scan_failed else ok m
scan failed n (blank ∷ ls) m = scan failed (suc n) ls m
scan failed n (malformed ∷ ls) m = err (bad_line n)
scan failed n (written r ∷ ls) m = scan failed (suc n) ls (keep_record r m)

-- `readLog`, as the map that `Expected` copies.
unfoldable pub read_log : Bool → List Line → Result (Dict ℤ WriteRecord)
unfolding scan
read_log failed ls = scan failed 1 ls []
