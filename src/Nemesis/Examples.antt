-- ===== src/Nemesis/Examples.antt =====
-- The theorems on the faults for a small cluster.
use proofload_sh.Prelude.{
  ℕ, ◌+◌, ◌*◌, ◌≤◌, ◌<◌, ◌≡◌, refl, arith, true, false, List, [], ◌∷◌, some, none, pos,
}
use proofload_sh.Machine.{add64, wrap}
use proofload_sh.Prelude.Sort.{insert_sorted, sort_stable}
use proofload_sh.Nemesis.{
  Node, FaultSpec, Action, Attempt, bare_node, occurrences, all_occurrences, plan, pick, run,
  earlier_action, earlier_occurrence, actions_of, find_node, random_below, next_random,
}
use proofload_sh.Nemesis.Unroll.{repeated, occurrences-repeated}
use proofload_sh.Nemesis.Healed.{pending, run-healed}

abbrev kill_any : FaultSpec
kill_any = record {
  fault = record { fault_type = "kill-node"; target = ""; params = [] };
  start = pos 10;
  duration = pos 15;
  repeat = pos 20;
}

abbrev two_nodes : List Node
two_nodes = bare_node "a" ∷ bare_node "b" ∷ []

occurrences-repeated_example :
    (n : ℕ) × (occurrences 100 kill_any 0 (pos 10) (pos 50) ≡ some (repeated kill_any 0 10 20 n))
    × (50 ≤ 10 + n * 20)
    × (10 + n * 20 < 50 + 20)
occurrences-repeated_example =
    occurrences-repeated 100 0 10 20 50 kill_any refl (omega arith) (omega arith) (omega arith)
      (omega arith) (omega arith)

abbrev attempt : Action → Action × Attempt
attempt a = (a, record { reached = true; err = none })

abbrev kill_a : Action
kill_a = record {
  time = pos 10;
  injects = true;
  fault_type = "kill-node";
  node = bare_node "a";
  params = [];
}

run-healed_example : pending "a" (run (λ id. pos 99) (λ id. none) (attempt kill_a ∷ [])) ≡ false
run-healed_example = run-healed (λ id. pos 99) (λ id. none) (attempt kill_a ∷ []) "a"

-- The same fault, at node b.
abbrev kill_b : FaultSpec
kill_b = record {
  fault = record { fault_type = "kill-node"; target = "b"; params = [] };
  start = pos 10;
  duration = pos 15;
  repeat = pos 20;
}

abbrev inject_b : ℕ → Action
inject_b time = record {
  time = pos time;
  injects = true;
  fault_type = "kill-node";
  node = bare_node "b";
  params = [];
}

abbrev heal_b : ℕ → Action
heal_b time = record {
  time = pos time;
  injects = false;
  fault_type = "";
  node = bare_node "b";
  params = [];
}

abbrev planned : List Action
planned = inject_b 10 ∷ heal_b 25 ∷ inject_b 30 ∷ heal_b 45 ∷ []

kill_planned : plan 5 two_nodes 7 (kill_b ∷ []) (pos 50) ≡ some planned
unfolding plan all_occurrences occurrences add64 wrap sort_stable insert_sorted earlier_action
    earlier_occurrence actions_of pick find_node random_below next_random
kill_planned = refl
