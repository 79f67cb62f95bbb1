-- ===== src/Emit.antt =====
-- core/emit: the artifacts of a run on disk. A path is its segments, so `filepath.Dir` and `filepath.Base` are
-- its beginning and its last segment; the outcome of each call of the operating system is a parameter.
use proofload_sh.Prelude.{
  ℕ, ◌≡◌, refl, ap, arith, Bool, true, false, Option, none, some, ◌>>=◌, List, [], ◌∷◌, ◌++◌,
  if◌then◌else◌, take, String, ◌==◌, string_eq, Eq, Dict, lookup, insert, without, eq_names,
  eq_names_iff,
}
pub mod Atomic
pub mod Visible
pub mod Store
pub mod Timeseries
pub mod Examples

abbrev pub FilePath : Type 0
FilePath = List String

instance abbrev pub path_eq : Eq FilePath
path_eq = record { beq = eq_names; beq_iff = eq_names_iff }

-- `filepath.Join` of a directory and a name
unfoldable pub join_path : FilePath → String → FilePath
join_path dir name = dir ++ name ∷ []

-- `filepath.Dir`
unfoldable pub dir_of : FilePath → FilePath
dir_of [] = []
dir_of (s ∷ []) = []
dir_of (s ∷ t ∷ path) = s ∷ dir_of (t ∷ path)

-- The files with their bytes, and the files that are open.
pub record Disk : Type 0 where
  pub files : Dict FilePath (List ℕ)
  pub open_files : List FilePath

-- A call that had an effect.
pub data Call : Type 0 where
  create : FilePath → Call
  write : FilePath → (written : List ℕ) → Call
  close : FilePath → Call
  rename : (from to : FilePath) → Call
  remove : FilePath → Call

unfoldable pub close_file : FilePath → List FilePath → List FilePath
close_file path [] = []
close_file path (p ∷ ps) = let rest = close_file path ps in if p == path then rest else p ∷ rest

unfoldable pub rename_file : FilePath → FilePath → Dict FilePath (List ℕ) → Dict FilePath (List ℕ)
rename_file from to files = elim (lookup from files) [
  | none ↦ files
  | some bytes ↦ insert to bytes (without from files)
]

unfoldable pub call : Call → Disk → Disk
unfolding close_file rename_file
call (create path) d = record { files = insert path [] d.files; open_files = path ∷ d.open_files }
call (write path written) d = record d { files = insert path written d.files }
call (close path) d = record d { open_files = close_file path d.open_files }
call (rename from to) d = record d { files = rename_file from to d.files }
call (remove path) d = record d { files = without path d.files }

-- What the operating system does: the name of the temporary file, if it can be made, the number of bytes
-- that a write takes, where that is fewer than all, and which of the other calls succeed.
pub record System : Type 0 where
  pub makes_dir : Bool
  pub temp_name : Option String
  pub short_write : Option ℕ
  pub syncs : Bool
  pub closes : Bool
  pub renames : Bool
  pub removes : Bool

pub data Failure : Type 0 where
  encode_failed mkdir_failed create_failed write_failed sync_failed close_failed rename_failed :
      Failure

-- `writeAndSync`
unfoldable pub write_and_sync : System → FilePath → List ℕ → List Call × Option Failure
write_and_sync os f data_ = elim os.short_write [
  | some n ↦ (write f (take n data_) ∷ close f ∷ [], some write_failed)
  | none ↦ (
    write f data_ ∷ close f ∷ [],
    if os.syncs then (if os.closes then none else some close_failed) else some sync_failed,
  )
]

removal : System → FilePath → List Call
removal os path = if os.removes then remove path ∷ [] else []

-- `writeAtomic` once the temporary file is written
unfoldable pub place :
    System → FilePath → FilePath → List Call × Option Failure → List Call × Option Failure
unfolding removal
place os path tmp (calls, some failure) = (create tmp ∷ calls ++ removal os tmp, some failure)
place os path tmp (calls, none) =
    if os.renames
    then (create tmp ∷ calls ++ rename tmp path ∷ [], none)
    else (create tmp ∷ calls ++ removal os tmp, some rename_failed)

-- `writeAtomic`: the calls in their order, and the failure, if any.
unfoldable pub write_atomic : System → FilePath → List ℕ → List Call × Option Failure
unfolding write_and_sync place
write_atomic os path data_ =
    if os.makes_dir
    then (elim os.temp_name [
      | none ↦ ([], some create_failed)
      | some name ↦
          let tmp = join_path (dir_of path) name in place os path tmp (write_and_sync os tmp data_)
    ])
    else ([], some mkdir_failed)

-- A write of what an encoder made: its failure ends the write before any call.
unfoldable pub write_encoded : System → FilePath → Option (List ℕ) → List Call × Option Failure
write_encoded os path none = ([], some encode_failed)
write_encoded os path (some bytes) = write_atomic os path bytes

-- The disk after some calls.
unfoldable pub after : List Call → Disk → Disk
unfolding call
after [] d = d
after (c ∷ cs) d = after cs (call c d)
