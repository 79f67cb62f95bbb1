-- ===== src/Emit/Visible.antt =====
-- What a reader of the disk sees during an atomic write and after it.
use proofload_sh.Prelude.{
  ℕ, ◌≡◌, ◌≢◌, refl, ap, ◌∙◌, arith, ◌⊎◌, inl, inr, Bool, true, false, Option, none, some, List, [],
  ◌∷◌, if◌then◌else◌, String, ◌==◌, Dict, lookup, insert, without, lookup-insert, lookup-without,
  lookup-insert_self,
}
use proofload_sh.Emit.{
  FilePath, path_eq, join_path, dir_of, Disk, Call, call, rename_file, System, Failure,
  write_atomic, after,
}
use proofload_sh.Emit.Atomic.{
  Shape, nothing, abandoned, renamed, write_atomic-Shape, given_up, put_in_place,
}

-- A property of the disk after each of some calls.
abbrev pub Always : (Disk → Type 0) → List Call → Disk → Type 0
Always P [] d = Unit
Always P (c ∷ cs) d = P (call c d) × Always P cs (call c d)

-- The path holds what it held, or the new bytes.
abbrev pub OldOrNew : FilePath → List ℕ → Disk → Disk → Type 0
OldOrNew path bytes before d =
    (lookup path d.files ≡ lookup path before.files) ⊎ (lookup path d.files ≡ some bytes)

-- What is documented of the temporary file: no file had its name, and it is not the destination.
abbrev pub Fresh : System → FilePath → Disk → Type 0
Fresh os path d =
    (name : String)
    → os.temp_name ≡ some name
    → (lookup (join_path (dir_of path) name) d.files ≡ none) × (join_path (dir_of path) name ≢ path)

module _ (tmp : FilePath) (d : Disk) where
  -- The files once the temporary file is there with some bytes.
  abbrev filled : List ℕ → Dict FilePath (List ℕ)
  filled w = insert tmp w (insert tmp [] d.files)

  lookup-filled :
      (p : FilePath) (w : List ℕ)
      → lookup p (filled w) ≡ (if tmp == p then some w else lookup p d.files)
  lookup-filled p w =
      ground (arith, lookup-insert tmp p w (insert tmp [] d.files), lookup-insert tmp p [] d.files)

  lookup-removed :
      (p : FilePath) (w : List ℕ)
      → lookup p (without tmp (filled w)) ≡ (if tmp == p then none else lookup p d.files)
  lookup-removed p w = ground (arith, lookup-without tmp p (filled w), lookup-filled p w)

  -- After a rename the destination has the bytes, and the temporary file is gone.
  lookup-renamed :
      (path p : FilePath) (w : List ℕ)
      → lookup p (after (put_in_place tmp path w) d).files
        ≡ (if path == p then some w else if tmp == p then none else lookup p d.files)
  unfolding after call rename_file
  lookup-renamed path p w =
      ap
        (λ o.
          lookup p (elim o [ none ↦ filled w | some v ↦ insert path v (without tmp (filled w)) ]))
        (lookup-insert_self tmp w (insert tmp [] d.files))
      ∙ lookup-insert path p w (without tmp (filled w))
      ∙ ap (λ o. if path == p then some w else o) (lookup-removed p w)

  lookup-given_up :
      (p : FilePath) (w : List ℕ)
      → lookup p (after (given_up true tmp w) d).files
        ≡ (if tmp == p then none else lookup p d.files)
  unfolding after call
  lookup-given_up = lookup-removed

  -- Whether it is removed or not, no other file changes.
  given_up-kept :
      (removes : Bool) (p : FilePath) (w : List ℕ)
      → tmp ≢ p
      → lookup p (after (given_up removes tmp w) d).files ≡ lookup p d.files
  unfolding after call
  given_up-kept false p w apart = ground (arith, lookup-filled p w, apart, path_eq.beq_iff tmp p)
  given_up-kept true p w apart = ground (arith, lookup-removed p w, apart, path_eq.beq_iff tmp p)

module _ (tmp path : FilePath) (d : Disk) (apart : tmp ≢ path) where
  differs : (tmp == path) ≡ false
  differs = ground (arith, path_eq.beq_iff tmp path, apart)

  after_create : lookup path (insert tmp [] d.files) ≡ lookup path d.files
  after_create = ground (arith, lookup-insert tmp path [] d.files, differs)

  after_write : (w : List ℕ) → lookup path (filled tmp d w) ≡ lookup path d.files
  after_write w = ground (arith, lookup-filled tmp d path w, differs)

  given_up-Always :
      (removes : Bool) (w bytes : List ℕ)
      → Always (OldOrNew path bytes d) (given_up removes tmp w) d
  unfolding call
  given_up-Always false w bytes =
      (inl after_create, (inl (after_write w), (inl (after_write w), tt)))
  given_up-Always true w bytes = (
    inl after_create,
    (
      inl (after_write w),
      (inl (after_write w), (inl (ground (arith, lookup-removed tmp d path w, differs)), tt)),
    ),
  )

  put_in_place-Always :
      (bytes : List ℕ) → Always (OldOrNew path bytes d) (put_in_place tmp path bytes) d
  unfolding call after
  put_in_place-Always bytes = (
    inl after_create,
    (
      inl (after_write bytes),
      (
        inl (after_write bytes),
        (inr (ground (arith, lookup-renamed tmp d path path bytes, path_eq.beq_iff path path)), tt),
      ),
    ),
  )

-- After each call of an atomic write the destination holds what it held, or all of the new bytes, whichever
-- calls fail and wherever the write stops. The temporary file is a new one beside it.
pub write_atomic-Always :
    (os : System) (path : FilePath) (bytes : List ℕ) (d : Disk)
    → Fresh os path d
    → Always (OldOrNew path bytes d) (write_atomic os path bytes).0 d
write_atomic-Always os path bytes d fresh =
    of_shape (write_atomic os path bytes) (write_atomic-Shape os path bytes)
  where
    of_shape :
        (r : List Call × Option Failure)
        → Shape os.temp_name os.removes path bytes r
        → Always (OldOrNew path bytes d) r.0 d
    of_shape _ (nothing e) = tt
    of_shape _ (abandoned name w e t) =
        given_up-Always (join_path (dir_of path) name) path d (fresh name t).1 os.removes w bytes
    of_shape _ (renamed name t) =
        put_in_place-Always (join_path (dir_of path) name) path d (fresh name t).1 bytes

-- The path is not that of the temporary file.
abbrev pub IsNotTemp : Option String → FilePath → FilePath → Type 0
IsNotTemp temp path p = (name : String) → temp ≡ some name → join_path (dir_of path) name ≢ p

-- What the disk holds once an atomic write has ended.
abbrev pub Ended :
    Option String → Bool → FilePath → List ℕ → Disk → List Call × Option Failure → Type 0
Ended temp removes path bytes d (calls, none) =
    (p : FilePath)
    → lookup p (after calls d).files ≡ (if path == p then some bytes else lookup p d.files)
Ended temp removes path bytes d (calls, some e) =
    ((p : FilePath) → IsNotTemp temp path p → lookup p (after calls d).files ≡ lookup p d.files)
    × (removes ≡ true → (p : FilePath) → lookup p (after calls d).files ≡ lookup p d.files)

-- An atomic write without a failure leaves the new bytes at the destination and every other file as it was,
-- with no temporary file. One that fails leaves every file as it was but the temporary one, whether that
-- can be removed or not, and no temporary file either if it can. The temporary file is a new one beside
-- the destination.
pub write_atomic-Ended :
    (os : System) (path : FilePath) (bytes : List ℕ) (d : Disk)
    → Fresh os path d
    → Ended os.temp_name os.removes path bytes d (write_atomic os path bytes)
write_atomic-Ended os path bytes d fresh =
    of_shape (write_atomic os path bytes) (write_atomic-Shape os path bytes)
  where
    of_shape :
        (r : List Call × Option Failure)
        → Shape os.temp_name os.removes path bytes r
        → Ended os.temp_name os.removes path bytes d r
    of_shape _ (nothing e) = (λ p apart. unfold after in refl, λ h p. unfold after in refl)
    of_shape _ (abandoned name w e t) =
        let tmp = join_path (dir_of path) name in
        (
          λ p apart. given_up-kept tmp d os.removes p w (apart name t),
          λ h p.
              ap (λ b. lookup p (after (given_up b tmp w) d).files) h
              ∙ ground (arith, lookup-given_up tmp d p w, (fresh name t).0, path_eq.beq_iff tmp p),
        )
    of_shape _ (renamed name t) = λ p.
        let tmp = join_path (dir_of path) name in
        ground (
          arith,
          lookup-renamed tmp d path p bytes,
          (fresh name t).0,
          path_eq.beq_iff tmp p,
          path_eq.beq_iff path p,
        )
