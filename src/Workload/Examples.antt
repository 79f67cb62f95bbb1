-- ===== src/Workload/Examples.antt =====
-- The theorems on the generator for a workload of ten keys and two workers.
use proofload_sh.Prelude.{
  ℕ, suc, ◌+◌, ◌*◌, ◌/◌, ◌%◌, ◌<◌, ◌≡◌, ◌↔◌, refl, arith, List, [], ◌∷◌, some, ℤ, pos, take,
  get_elem?, lookup, insert,
}
use proofload_sh.Machine.{add64, sub64, mul64, div64, rem64, wrap}
use proofload_sh.Workload.{
  Workload, Operation, Factory, ok, new, partition, generator, next, pick_op, value, param_bool,
  cumulate, factory_of, pick, is_write, next_key, new_key_gen, fill,
}
use proofload_sh.Workload.Partition.{owned, partition_exact}
use proofload_sh.Workload.Mix.{expand, sum_weights, pick_op-expand}
use proofload_sh.Workload.Sequence.{run, count_key, run-numbered}
use proofload_sh.Workload.Ownership.{run-owned}

abbrev ten_keys : Workload
ten_keys = record {
  operations =
      record { type = "read"; weight = pos 1 } ∷ record { type = "write"; weight = pos 3 } ∷ [];
  key_space = pos 10;
  key_dist = "sequential";
  value_size = pos 4;
  params = [];
}

abbrev second_of_two : Factory
second_of_two = record {
  workload = ten_keys;
  worker_id = pos 1;
  stride = pos 2;
  base = pos 1;
  local_space = pos 5;
  cum = pos 1 ∷ pos 4 ∷ [];
  total = pos 4;
}

new-ten_keys : new ten_keys (pos 1) (pos 2) ≡ ok second_of_two
unfolding new cumulate partition factory_of param_bool add64 sub64 div64 wrap lookup
new-ten_keys = refl

partition_exact_example :
    (partition ten_keys (pos 1) (pos 2)
      ≡ record { stride = pos 2; base = pos 1; keys = pos (owned 10 1 2) })
    × (((3 < owned 10 1 2) × (7 ≡ 3 * 2 + 1)) ↔ ((7 < 10) × (7 % 2 ≡ 1) × (7 / 2 ≡ 3)))
partition_exact_example =
    partition_exact ten_keys 10 1 2 3 7 refl (unfold param_bool lookup in refl) (omega arith)
      (omega arith)

pick_op-expand_example :
    (second_of_two.total ≡ pos (sum_weights ten_keys.operations))
    × (get_elem? (expand ten_keys.operations) 2 ≡ some (pick_op second_of_two (pos 2)))
pick_op-expand_example =
    pick_op-expand ten_keys (pos 1) (pos 2) second_of_two 2 new-ten_keys (omega arith) (omega arith)

-- Payload words that are all 7, and three draws of an operation and a key.
abbrev sevens : ℤ → ℕ → ℕ
sevens key n = 7

abbrev three_draws : List (ℕ × ℕ)
three_draws = (2, 0) ∷ (0, 1) ∷ (3, 0) ∷ []

abbrev second_write : Operation
second_write = record { type = "write"; key = pos 5; value = 7 ∷ 0 ∷ 0 ∷ 0 ∷ []; seq = pos 1 }

second_write_at : get_elem? (run sevens three_draws (generator second_of_two)) 2 ≡ some second_write
unfolding run next pick_op pick add64 mul64 rem64 is_write generator next_key new_key_gen value fill
    lookup insert
second_write_at = refl

run-numbered_example :
    pos 1
    ≡ pos (suc (count_key (pos 5) (take 2 (run sevens three_draws (generator second_of_two)))))
run-numbered_example =
    run-numbered sevens three_draws second_of_two 2 {op = second_write} (omega arith)
      second_write_at

run-owned_example : (k : ℕ) × (pos 5 ≡ pos k) × (k < 10) × (k % 2 ≡ 1)
run-owned_example =
    run-owned ten_keys 10 1 2 second_of_two sevens three_draws 2 {op = second_write} refl
      (unfold param_bool lookup in refl) (omega arith) (omega arith) (omega arith) new-ten_keys
      (omega arith) second_write_at
