-- ===== src/Nemesis/Healed.antt =====
-- Every fault that was injected is healed by the end of the run.
use proofload_sh.Prelude.{
  ◌≡◌, refl, sym, ◌∙◌, arith, Bool, true, false, not, ◌&&◌, ◌||◌, Bool-cases, inl, inr, Option,
  none, some, List, [], ◌∷◌, ◌++◌, if◌then◌else◌, ℤ, Dict, lookup, insert, without, lookup-insert,
  lookup-without, String, ◌==◌, string_eq, is_some,
}
use proofload_sh.Prelude.Sort.{insert_sorted, sort_stable, less_text}
use proofload_sh.Nemesis.{Node, Action, Attempt, Event, execute, heal_each, heal_all, run, keys_of}

-- Whether the fault of a node that succeeded last has had no heal attempted since.
abbrev pub pending_after : String → Bool → Event → Bool
pending_after id before e =
    if e.node == id then (if e.injects then (not (is_some e.err) || before) else false) else before

abbrev pub pending_from : String → Bool → List Event → Bool
pending_from id before [] = before
pending_from id before (e ∷ es) = pending_from id (pending_after id before e) es

abbrev pub pending : String → List Event → Bool
pending id es = pending_from id false es

pending-append :
    (id : String) (before : Bool) (es : List Event) (e : Event)
    → pending_from id before (es ++ e ∷ []) ≡ pending_after id (pending_from id before es) e
pending-append id before [] e = refl
pending-append id before (f ∷ es) e = pending-append id (pending_after id before f) es e

-- The outstanding faults are exactly the pending ones.
abbrev Tracks : Dict String Node → List Event → Type 0
Tracks out es = (id : String) → is_some (lookup id out) ≡ pending id es

-- An injection adds its node to the outstanding faults exactly when it succeeds; a heal removes it.
Tracks-inject :
    (time : ℤ) (fault_type : String) (node : Node) (error : Option String) (out : Dict String Node)
    (es : List Event)
    → Tracks out es
    → Tracks
        (elim error [ none ↦ insert node.id node out | some e ↦ out ])
        (es
          ++ record {
            time = time;
            injects = true;
            fault_type = fault_type;
            node = node.id;
            err = error;
          }
            ∷ [])
Tracks-inject time fault_type node none out es h id =
    let e : Event = record {
      time = time;
      injects = true;
      fault_type = fault_type;
      node = node.id;
      err = none;
    } in
    ground (arith, h id, lookup-insert node.id id node out, pending-append id false es e)
Tracks-inject time fault_type node (some err) out es h id =
    let e : Event = record {
      time = time;
      injects = true;
      fault_type = fault_type;
      node = node.id;
      err = some err;
    } in
    ground (arith, h id, pending-append id false es e)

Tracks-heal :
    (time : ℤ) (node : Node) (error : Option String) (out : Dict String Node) (es : List Event)
    → Tracks out es
    → Tracks (without node.id out) (
        es
        ++ record { time = time; injects = false; fault_type = ""; node = node.id; err = error }
          ∷ [])
Tracks-heal time node error out es h id =
    let e : Event = record {
      time = time;
      injects = false;
      fault_type = "";
      node = node.id;
      err = error;
    } in
    ground (arith, h id, lookup-without node.id id out, pending-append id false es e)

execute-Tracks :
    (acts : List (Action × Attempt)) (out : Dict String Node) (es : List Event)
    → Tracks out es
    → Tracks (execute acts out es).0 (execute acts out es).1
unfolding execute
execute-Tracks [] out es h id = h id
execute-Tracks ((a, t) ∷ rest) out es h id =
    let on = execute-Tracks rest _ _ (Tracks-inject a.time a.fault_type a.node t.err out es h) id in
    let off = execute-Tracks rest _ _ (Tracks-heal a.time a.node t.err out es h) id in
    elim (Bool-cases t.reached) [
      | inl r ↦ elim (Bool-cases a.injects) [ inl i ↦ rw (r, i) on | inr i ↦ rw (r, i) off ]
      | inr r ↦ rw r (h id)
    ]

abbrev pub has : String → List String → Bool
has id [] = false
has id (x ∷ xs) = x == id || has id xs

has-insert_sorted :
    (id x : String) (xs : List String)
    → has id (insert_sorted less_text x xs) ≡ (x == id || has id xs)
unfolding insert_sorted
has-insert_sorted id x [] = refl
has-insert_sorted id x (y ∷ ys) = let rest = has-insert_sorted id x ys in ground (arith, rest)

has-sort_stable : (id : String) (xs : List String) → has id (sort_stable less_text xs) ≡ has id xs
unfolding sort_stable
has-sort_stable id [] = refl
has-sort_stable id (x ∷ xs) =
    let rest = has-sort_stable id xs in
    ground (arith, rest, has-insert_sorted id x (sort_stable less_text xs))

has-keys_of : (id : String) (m : Dict String Node) → has id (keys_of m) ≡ is_some (lookup id m)
unfolding keys_of lookup
has-keys_of id [] = refl
has-keys_of id ((k, v) ∷ m) = let rest = has-keys_of id m in ground (arith, rest)

module _ (clock : String → ℤ) (answer : String → Option String) where
  heal_each-pending :
      (id : String) (ids : List String) (es : List Event)
      → pending id (heal_each clock answer ids es) ≡ (pending id es && not (has id ids))
  unfolding heal_each
  heal_each-pending id [] es = ground arith
  heal_each-pending id (x ∷ ids) es =
      let e : Event = record {
        time = clock x;
        injects = false;
        fault_type = "";
        node = x;
        err = answer x;
      } in
      let rest = heal_each-pending id ids (es ++ e ∷ []) in
      let one = pending-append id false es e in rest ∙ ground (arith, one)

  heal_all-pending :
      (id : String) (out : Dict String Node) (es : List Event)
      → Tracks out es
      → pending id (heal_all clock answer out es) ≡ false
  unfolding heal_all lookup
  heal_all-pending id [] es h = sym (h id)
  heal_all-pending id (o ∷ os) es h =
      let ids = keys_of (o ∷ os) in
      let all = heal_each-pending id (sort_stable less_text ids) es in
      all ∙ ground (arith, h id, has-sort_stable id ids, has-keys_of id (o ∷ os))

  -- However the run ends, after the last successful injection into a node the timeline has a heal of it.
  pub run-healed :
      (acts : List (Action × Attempt)) (id : String) → pending id (run clock answer acts) ≡ false
  unfolding run lookup
  run-healed acts id =
      heal_all-pending id (execute acts [] []).0 (execute acts [] []).1
        (execute-Tracks acts [] [] (λ j. refl))
