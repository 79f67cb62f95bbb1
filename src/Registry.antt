-- ===== src/Registry.antt =====
-- core/driver/registry.go, and the registry of core/provision/provisioner.go, which accepts an empty name. A
-- driver is a value of a type D with its name; a nil interface is `none`.
use proofload_sh.Prelude.{
  Bool, true, false, ◌&&◌, Option, none, some, List, [], ◌∷◌, if◌then◌else◌, is_some, String, ◌==◌,
  string_eq, Dict, lookup, insert, sorted_keys,
}
pub mod Names
pub mod Examples

pub data Panic : Type 0 where
  nil empty_name duplicate : Panic

pub data Registering (D : Type 0) : Type 0 where
  panics : Panic → Registering D
  registered : Dict String D → Registering D

module _ {D : Type 0} (name : D → String) where
  -- `Register` of provision
  unfoldable pub register_backend : Option D → Dict String D → Registering D
  register_backend none registry = panics nil
  register_backend (some d) registry =
      if is_some (lookup (name d) registry)
      then panics duplicate
      else registered (insert (name d) d registry)

  -- `Register` of driver
  unfoldable pub register : Option D → Dict String D → Registering D
  register none registry = panics nil
  register (some d) registry =
      if name d == ""
      then panics empty_name
      else if is_some (lookup (name d) registry)
      then panics duplicate
      else registered (insert (name d) d registry)

  -- The registrations of a program, in turn, up to a panic.
  unfoldable pub register_all : List (Option D) → Dict String D → Registering D
  unfolding register
  register_all [] registry = registered registry
  register_all (d ∷ ds) registry = elim (register d registry) [
    | panics p ↦ panics p
    | registered next ↦ register_all ds next
  ]

-- `Names` and `Backends`
unfoldable pub names : {D : Type 0} → Dict String D → List String
names registry = sorted_keys registry

-- What `Get` returns: the driver, or an error with the names there are.
pub data Got (D : Type 0) : Type 0 where
  got : D → Got D
  unknown : (have : List String) → Got D

-- `Get`
unfoldable pub get_registered : {D : Type 0} → String → Dict String D → Got D
unfolding names
get_registered name registry = elim (lookup name registry) [
  | none ↦ unknown (names registry)
  | some d ↦ got d
]
