-- ===== src/Workload/Ownership.antt =====
-- A worker's stream stays inside its slice of the key space.
use proofload_sh.Prelude.{
  ℕ, zero, suc, ◌+◌, ◌-◌, ◌*◌, ◌%◌, ◌<◌, ◌≡◌, ap, sym, ◌∙◌, arith, false, ℤ, pos, List, [], ◌∷◌,
  some, get_elem?, length, All,
}
use native.Mathlib.Nat.{div-le_self}
use mathlib.Core.Option.{some-injective}
use proofload_sh.Machine.{two63, add64-pos, mul64-pos}
use proofload_sh.Workload.{
  Operation, Generator, Factory, Workload, next, generator, new, ok, param_bool,
}
use proofload_sh.Workload.Accepted.{new-IsAccepted}
use proofload_sh.Workload.Keys.{IsKeyGen, new_key_gen-IsKeyGen, next_key_in_span}
use proofload_sh.Workload.Partition.{owned, partition-owned, owned_within, key_mod}
use proofload_sh.Workload.Sequence.{run}

module _ (keys w workers : ℕ) (in_range : w < workers) (fits : keys + workers < two63) where
  -- A generator of worker w that can make `calls` more calls.
  record IsWorkerGen (calls : ℕ) (g : Generator) : Type 0 where
    stride : g.factory.stride ≡ pos workers
    base : g.factory.base ≡ pos w
    gen : IsKeyGen (owned keys w workers) calls g.keys

  -- A key that worker w owns.
  abbrev IsOwned : ℤ → Type 0
  IsOwned key = (k : ℕ) × (key ≡ pos k) × (k < keys) × (k % workers ≡ w)

  next-IsOwned :
      (stream : ℤ → ℕ → ℕ) (t : ℤ) (calls draw : ℕ) (g : Generator)
      → owned keys w workers < two63
      → draw < owned keys w workers
      → IsWorkerGen (suc calls) g
      → IsOwned (next stream t (pos draw) g).0.key
        × IsWorkerGen calls (next stream t (pos draw) g).1
  unfolding next
  next-IsOwned stream t calls draw g b d v =
      let n = next_key_in_span (owned keys w workers) calls draw b d v.gen in
      let inside = owned_within keys w workers in_range n.0 n.2 in
      (
        (
          n.0 * workers + w,
          rw (n.1, v.stride, v.base, mul64-pos n.0 workers (omega arith))
              (add64-pos (n.0 * workers) w (omega arith)),
          inside,
          key_mod keys w workers in_range n.0,
        ),
        record { stride = v.stride; base = v.base; gen = n.3 },
      )

  run-IsOwned :
      (stream : ℤ → ℕ → ℕ) (ds : List (ℕ × ℕ)) (g : Generator) (i : ℕ) {op : Operation}
      → owned keys w workers < two63
      → All (λ (d : ℕ × ℕ). d.1 < owned keys w workers) ds
      → IsWorkerGen (length ds) g
      → get_elem? (run stream ds g) i ≡ some op
      → IsOwned op.key
  unfolding run
  run-IsOwned stream [] g i b d v h = cc
  run-IsOwned stream ((t, k) ∷ ds) g zero b d v h =
      let e = some-injective _ _ h in
      rw (← e) (next-IsOwned stream (pos t) (length ds) k g b d.0 v).0
  run-IsOwned stream ((t, k) ∷ ds) g (suc i) b d v h =
      run-IsOwned stream ds (next stream (pos t) (pos k) g).1 i b d.1
        (next-IsOwned stream (pos t) (length ds) k g b d.0 v).1 h

-- Every operation of a generator of worker w of `workers`, over a key space that is not shared, has a
-- key of the key space that is w modulo `workers`, whatever the distribution, as long as each key draw
-- lies below the number of keys that the worker owns, the factory is one that `New` returned, w is below
-- `workers`, and the keys with the workers, and the number of draws, stay below 2^63.
pub run-owned :
    (wl : Workload) (keys w workers : ℕ) (f : Factory) (stream : ℤ → ℕ → ℕ) (ds : List (ℕ × ℕ))
    (i : ℕ) {op : Operation}
    → wl.key_space ≡ pos keys
    → param_bool wl.params "shared_keys" ≡ false
    → w < workers
    → keys + workers < two63
    → length ds < two63
    → new wl (pos w) (pos workers) ≡ ok f
    → All (λ (d : ℕ × ℕ). d.1 < owned keys w workers) ds
    → get_elem? (run stream ds (generator f)) i ≡ some op
    → (k : ℕ) × (op.key ≡ pos k) × (k < keys) × (k % workers ≡ w)
unfolding generator
run-owned wl keys w workers f stream ds i space split in_range fits few made draws at =
    let a = new-IsAccepted wl (pos w) (pos workers) made in
    let slice = sym a.slice ∙ partition-owned wl keys w workers space split in_range fits in
    let count : f.local_space ≡ pos (owned keys w workers) = ap (λ s. s.keys) slice in
    let some_keys : 0 < owned keys w workers = ground arith in
    let small : owned keys w workers < two63 =
      ground (arith, div-le_self (keys - w + workers - 1) workers) in
    run-IsOwned keys w workers in_range fits stream ds (generator f) i small draws
      (record {
        stride = ap (λ s. s.stride) slice;
        base = ap (λ s. s.base) slice;
        gen = rw count (
            new_key_gen-IsKeyGen f.workload.key_dist (owned keys w workers) (length ds) some_keys
              few);
      })
      at
