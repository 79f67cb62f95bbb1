-- ===== src/Nemesis/Target.antt =====
-- The node that `pick` chooses for a fault.
use native.Mathlib.Nat.{mod-lt}
use proofload_sh.Prelude.{
  ℕ, zero, suc, ◌<◌, ◌≡◌, refl, arith, true, some, List, [], ◌∷◌, length, get_or, get_elem?, ◌==◌,
  string_eq,
}
use proofload_sh.Nemesis.{Node, Fault, bare_node, next_random, random_below, pick}

pub random_below_lt : (n state : ℕ) → (random_below (suc n) state).0 < suc n
unfolding random_below
random_below_lt n state = mod-lt (next_random state).0 (omega arith)

get_or-get_elem? :
    (nodes : List Node) (i : ℕ) (d : Node)
    → i < length nodes
    → get_elem? nodes i ≡ some (get_or nodes i d)
get_or-get_elem? [] i d h = ground arith
get_or-get_elem? (n ∷ ns) zero d h = refl
get_or-get_elem? (n ∷ ns) (suc i) d h = get_or-get_elem? ns i d (omega arith)

-- A fault that names no target hits a node of a cluster that has one, whatever the generator's state.
pub pick-get_elem? :
    (n : Node) (ns : List Node) (f : Fault) (state : ℕ)
    → f.target ≡ ""
    → (i : ℕ) × (get_elem? (n ∷ ns) i ≡ some (pick (n ∷ ns) f state).0)
unfolding pick
pick-get_elem? n ns f state h =
    let i = (random_below (length (n ∷ ns)) state).0 in
    let here = get_or-get_elem? (n ∷ ns) i (bare_node "") (random_below_lt (length ns) state) in
    let none_named : (f.target == "") ≡ true = (string_eq.beq_iff f.target "").1 h in
    (i, ground (arith, none_named, here))
