-- ===== src/Emit/Atomic.antt =====
-- What an atomic write leaves on disk, and what is seen of it on the way.
use proofload_sh.Prelude.{
  ℕ, ◌≡◌, refl, sym, subst, ◌⊎◌, inl, inr, Bool, true, Bool-cases, Option-cases, Option, none, some,
  List, [], ◌∷◌, if◌then◌else◌, take, String,
}
use proofload_sh.Emit.{
  FilePath, path_eq, join_path, dir_of, Call, create, write, close, rename, remove, System, Failure,
  mkdir_failed, create_failed, write_failed, sync_failed, close_failed, rename_failed,
  write_and_sync, removal, place, write_atomic,
}

-- What a write can be: nothing at all, a temporary file that is filled as far as it went and then removed
-- if that succeeds, or a temporary file with all the bytes that is renamed.
abbrev pub given_up : Bool → FilePath → List ℕ → List Call
given_up removes tmp written =
    create tmp ∷ write tmp written ∷ close tmp ∷ (if removes then remove tmp ∷ [] else [])

abbrev pub put_in_place : FilePath → FilePath → List ℕ → List Call
put_in_place tmp path bytes = create tmp ∷ write tmp bytes ∷ close tmp ∷ rename tmp path ∷ []

pub data Shape (temp : Option String) (removes : Bool) (path : FilePath) (bytes : List ℕ)
    : List Call × Option Failure → Type 0 where
  nothing : (e : Failure) → Shape temp removes path bytes ([], some e)
  abandoned :
      (name : String) (written : List ℕ) (e : Failure)
      → temp ≡ some name
      → Shape temp removes path bytes
          (given_up removes (join_path (dir_of path) name) written, some e)
  renamed :
      (name : String)
      → temp ≡ some name
      → Shape temp removes path bytes (put_in_place (join_path (dir_of path) name) path bytes, none)

write_and_sync-cases :
    (os : System) (f : FilePath) (bytes : List ℕ)
    → ((written : List ℕ) × ((e : Failure) × (write_and_sync os f bytes
            ≡ (write f written ∷ close f ∷ [], some e))))
      ⊎ (write_and_sync os f bytes ≡ (write f bytes ∷ close f ∷ [], none))
unfolding write_and_sync
write_and_sync-cases os f bytes = elim (Option-cases os.short_write) [
  | inr (n, w) ↦ inl (take n bytes, (write_failed, rw w refl))
  | inl w ↦ elim (Bool-cases os.syncs) [
    | inr s ↦ inl (bytes, (sync_failed, rw (w, s) refl))
    | inl s ↦ elim (Bool-cases os.closes) [
      | inr c ↦ inl (bytes, (close_failed, rw (w, s, c) refl))
      | inl c ↦ inr (rw (w, s, c) refl)
    ]
  ]
]

place-Shape :
    (os : System) (path : FilePath) (bytes : List ℕ) (name : String)
    → os.temp_name ≡ some name
    → let tmp = join_path (dir_of path) name in
      Shape os.temp_name os.removes path bytes (place os path tmp (write_and_sync os tmp bytes))
unfolding place removal
place-Shape os path bytes name t =
    elim (write_and_sync-cases os (join_path (dir_of path) name) bytes) [
      | inl (written, (e, w)) ↦ rw w (abandoned name written e t)
      | inr w ↦ elim (Bool-cases os.renames) [
        | inr r ↦ rw (w, r) (abandoned name bytes rename_failed t)
        | inl r ↦ rw (w, r) (renamed name t)
      ]
    ]

write_atomic-named :
    (os : System) (path : FilePath) (bytes : List ℕ) (name : String)
    → os.makes_dir ≡ true
    → os.temp_name ≡ some name
    → let tmp = join_path (dir_of path) name in
      write_atomic os path bytes ≡ place os path tmp (write_and_sync os tmp bytes)
unfolding write_atomic
write_atomic-named os path bytes name m t = rw (m, t) refl

pub write_atomic-Shape :
    (os : System) (path : FilePath) (bytes : List ℕ)
    → Shape os.temp_name os.removes path bytes (write_atomic os path bytes)
unfolding write_atomic
write_atomic-Shape os path bytes = elim (Bool-cases os.makes_dir) [
  | inr m ↦ rw m (nothing mkdir_failed)
  | inl m ↦ elim (Option-cases os.temp_name) [
    | inl t ↦ rw (m, t) (nothing create_failed)
    | inr (name, t) ↦
        subst (Shape os.temp_name os.removes path bytes)
          (sym (write_atomic-named os path bytes name m t)) (place-Shape os path bytes name t)
  ]
]
