-- ===== src/Registry/Names.antt =====
-- What a program finds in the registry after its registrations.
use proofload_sh.Prelude.{
  ℕ, ◌+◌, ◌≤◌, ◌≡◌, refl, sym, ap, ◌∙◌, arith, Bool, true, false, Option, none, some, List, [], ◌∷◌,
  if◌then◌else◌, is_some, String, ◌==◌, string_eq, Dict, lookup, insert, lookup-insert, sorted_keys,
  keys, Distinct, InOrder,
}
use proofload_sh.Prelude.Sort.{tally, Sorted, tally-sort_stable, less_text}
use proofload_sh.Prelude.Names.{empty-Distinct, insert-Distinct, sorted_keys-Sorted}
use proofload_sh.Registry.{
  Registering, panics, registered, nil, empty_name, duplicate, register, register_all, names, got,
  unknown, get_registered,
}

module _ {D : Type 0} (name : D → String) where
  -- The first driver of a name among the registrations.
  abbrev pub found : String → List (Option D) → Option D
  found k [] = none
  found k (none ∷ ds) = found k ds
  found k (some d ∷ ds) = if name d == k then some d else found k ds

  -- Whether a driver has a name.
  abbrev pub is_named : String → Option D → Bool
  is_named k none = false
  is_named k (some d) = name d == k

  abbrev or_else : Option D → Option D → Option D
  or_else none d = d
  or_else (some v) d = some v

  abbrev pub is_nil : Option D → Bool
  is_nil none = true
  is_nil (some d) = false

  abbrev present : String → Dict String D → ℕ
  present k m = if is_some (lookup k m) then 1 else 0

  -- What registrations do to a registry: all of them are found in it, by distinct names that are not
  -- empty, or the panic has its cause among them.
  abbrev Left : List (Option D) → Dict String D → Registering D → Type 0
  Left ds before (registered after) =
      ((k : String) → lookup k after ≡ or_else (lookup k before) (found k ds))
      × ((k : String) → tally (is_named k) ds + present k before ≤ 1)
      × (tally (is_named "") ds ≡ 0)
      × (tally is_nil ds ≡ 0)
  Left ds before (panics nil) = 1 ≤ tally is_nil ds
  Left ds before (panics empty_name) = 1 ≤ tally (is_named "") ds
  Left ds before (panics duplicate) = (k : String) × (2 ≤ tally (is_named k) ds + present k before)

  -- A registration whose guards are known, and those after it.
  abbrev guarded : D → Dict String D → (empty held : Bool) → Registering D
  guarded d m empty held =
      if empty
      then panics empty_name
      else if held
      then panics duplicate
      else registered (insert (name d) d m)

  abbrev then_all : Registering D → List (Option D) → Registering D
  then_all r ds = elim r [ panics p ↦ panics p | registered next ↦ register_all name ds next ]

  present_le : (k : String) (m : Dict String D) → present k m ≤ 1
  present_le k m = ground arith

  none_or : (o : Option D) → or_else o none ≡ o
  none_or none = refl
  none_or (some d) = refl

  Left-cons :
      (d : D) (ds : List (Option D)) (before : Dict String D) (r : Registering D)
      → (name d == "") ≡ false
      → lookup (name d) before ≡ none
      → Left ds (insert (name d) d before) r
      → Left (some d ∷ ds) before r
  Left-cons d ds before (registered after) e l h = (
    λ k. ground (arith, h.0 k, l, lookup-insert (name d) k d before, string_eq.beq_iff (name d) k),
    λ k. ground (arith, h.1 k, l, lookup-insert (name d) k d before, string_eq.beq_iff (name d) k),
    ground (arith, e, h.2),
    ground (arith, h.3),
  )
  Left-cons d ds before (panics nil) e l h = ground (arith, h)
  Left-cons d ds before (panics empty_name) e l h = ground (arith, h)
  Left-cons d ds before (panics duplicate) e l (k, h) =
      (k, ground (arith, h, l, lookup-insert (name d) k d before, string_eq.beq_iff (name d) k))

  register_all-Left :
      (ds : List (Option D)) (before : Dict String D) → Left ds before (register_all name ds before)
  unfolding register_all register
  register_all-Left [] before =
      (λ k. sym (none_or (lookup k before)), λ k. ground arith, refl, refl)
  register_all-Left (none ∷ ds) before = omega arith
  register_all-Left (some d ∷ ds) before =
      by_case (register_all-Left ds (insert (name d) d before)) (name d == "")
        (lookup (name d) before) refl refl
    where
      by_case :
          Left ds (insert (name d) d before) (register_all name ds (insert (name d) d before))
          → (empty : Bool) (held : Option D) → (name d == "") ≡ empty
          → lookup (name d) before ≡ held
          → Left (some d ∷ ds) before (then_all (guarded d before empty (is_some held)) ds)
      by_case later true held e l = ground (arith, e)
      by_case later false none e l =
          Left-cons d ds before (register_all name ds (insert (name d) d before)) e l later
      by_case later false (some other) e l =
          (name d, ground (arith, l, string_eq.beq_iff (name d) (name d)))

  -- What holds of registrations on an empty registry and of their result.
  abbrev pub Registered : List (Option D) → Registering D → Type 0
  Registered ds (registered after) =
      ((k : String)
        → get_registered k after
          ≡ (elim (found k ds) [ none ↦ unknown (names after) | some d ↦ got d ]))
      × ((k : String) → tally (is_named k) ds ≤ 1)
      × (tally (is_named "") ds ≡ 0)
      × (tally is_nil ds ≡ 0)
      × ((k : String) → tally (λ j. j == k) (names after) ≡ (if is_some (found k ds) then 1 else 0))
      × Sorted InOrder (names after)
  Registered ds (panics nil) = 1 ≤ tally is_nil ds
  Registered ds (panics empty_name) = 1 ≤ tally (is_named "") ds
  Registered ds (panics duplicate) = (k : String) × (2 ≤ tally (is_named k) ds)

  abbrev Kept : Registering D → Type 0
  Kept (panics p) = Unit
  Kept (registered after) = Distinct after

  register_all-Distinct :
      (ds : List (Option D)) (before : Dict String D)
      → Distinct before
      → Kept (register_all name ds before)
  unfolding register_all register
  register_all-Distinct [] before h = h
  register_all-Distinct (none ∷ ds) before h = tt
  register_all-Distinct (some d ∷ ds) before h =
      by_case
        (register_all-Distinct ds (insert (name d) d before) (insert-Distinct (name d) d before h))
        (name d == "") (is_some (lookup (name d) before))
    where
      by_case :
          Kept (register_all name ds (insert (name d) d before))
          → (empty held : Bool) → Kept (then_all (guarded d before empty held) ds)
      by_case later true held = tt
      by_case later false true = tt
      by_case later false false = later

  -- After registrations on an empty registry that do not panic, each name has the driver that was
  -- registered under it, once, the names are listed in order, each once, and no driver was nil or had an empty name; a
  -- panic has its cause among the registrations: a nil driver, an empty name, or a name that two drivers have.
  pub register_all-Registered : (ds : List (Option D)) → Registered ds (register_all name ds [])
  unfolding lookup get_registered names sorted_keys
  register_all-Registered ds =
      of_result (register_all name ds []) (register_all-Left ds [])
        (register_all-Distinct ds [] (empty-Distinct String D))
    where
      of_result : (r : Registering D) → Left ds [] r → Kept r → Registered ds r
      of_result (panics nil) h k = h
      of_result (panics empty_name) h k = h
      of_result (panics duplicate) (k, h) _ = (k, omega (arith, h))
      of_result (registered after) h d = (
        λ k. ap (λ o. elim o [ none ↦ unknown (names after) | some v ↦ got v ]) (h.0 k),
        λ k. omega (arith, h.1 k),
        h.2,
        h.3,
        λ k.
            tally-sort_stable (λ j. j == k) less_text (keys after)
            ∙ d k
            ∙ ap (λ o. if is_some o then 1 else 0) (h.0 k),
        sorted_keys-Sorted after,
      )
