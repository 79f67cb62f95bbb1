-- ===== src/Workload/Sequence.antt =====
-- The stream of one generator: the keys it may produce, and the per-key sequence numbers.
use mathlib.Core.Option.{some-injective}
use proofload_sh.Prelude.{
  ℕ, zero, suc, ◌+◌, ◌<◌, ◌≡◌, refl, ap, ◌∙◌, arith, if◌then◌else◌, ℤ, pos, List, [], ◌∷◌, some,
  get_elem?, take, length, lookup, lookup-insert, eqb_ℤ_iff, int_eq, ◌==◌,
}
use proofload_sh.Machine.{two63, add64-pos}
use proofload_sh.Workload.{Operation, Generator, Factory, next, or_zero, generator}

-- The operations that a sequence of draws gives.
unfoldable pub run : (ℤ → ℕ → ℕ) → List (ℕ × ℕ) → Generator → List Operation
run stream [] g = []
run stream ((t, k) ∷ ds) g = let (op, g') = next stream (pos t) (pos k) g in op ∷ run stream ds g'

-- How often a key occurs among operations.
abbrev pub count_key : ℤ → List Operation → ℕ
count_key k [] = 0
count_key k (op ∷ ops) = (if op.key == k then 1 else 0) + count_key k ops

-- The counters of a generator stand for `seen`.
abbrev Counts : Generator → (ℤ → ℕ) → Type 0
Counts g seen = (k : ℤ) → or_zero (lookup k g.seq_of) ≡ pos (seen k)

abbrev bump : ℤ → (ℤ → ℕ) → ℤ → ℕ
bump key seen k = (if key == k then 1 else 0) + seen k

next-seq :
    (stream : ℤ → ℕ → ℕ) (t k : ℤ) (g : Generator) (seen : ℤ → ℕ)
    → Counts g seen
    → seen (next stream t k g).0.key + 1 < two63
    → (next stream t k g).0.seq ≡ pos (suc (seen (next stream t k g).0.key))
unfolding next
next-seq stream t k g seen c b =
    let key = (next stream t k g).0.key in ground (arith, c key, add64-pos (seen key) 1)

next-Counts :
    (stream : ℤ → ℕ → ℕ) (t k : ℤ) (g : Generator) (seen : ℤ → ℕ)
    → Counts g seen
    → seen (next stream t k g).0.key + 1 < two63
    → Counts (next stream t k g).1 (bump (next stream t k g).0.key seen)
unfolding next
next-Counts stream t k g seen c b j =
    let key = (next stream t k g).0.key in
    ground (
      arith,
      lookup-insert key j (next stream t k g).0.seq g.seq_of,
      eqb_ℤ_iff key j,
      c j,
      c key,
      add64-pos (seen key) 1,
    )

run-seq :
    (stream : ℤ → ℕ → ℕ) (ds : List (ℕ × ℕ)) (g : Generator) (seen : ℤ → ℕ) (i : ℕ) {op : Operation}
    → Counts g seen
    → ((k : ℤ) → seen k + length ds < two63)
    → get_elem? (run stream ds g) i ≡ some op
    → op.seq ≡ pos (suc (seen op.key + count_key op.key (take i (run stream ds g))))
unfolding run
run-seq stream [] g seen i c b h = cc
run-seq stream ((t, k) ∷ ds) g seen zero c b h =
    let e : (next stream (pos t) (pos k) g).0 ≡ _ = some-injective _ _ h in
    rw (← e) (
      next-seq stream (pos t) (pos k) g seen c
        (omega (arith, b (next stream (pos t) (pos k) g).0.key))
      ∙ ap pos (omega arith))
run-seq stream ((t, k) ∷ ds) g seen (suc i) {op} c b h =
    let key = (next stream (pos t) (pos k) g).0.key in
    run-seq stream ds (next stream (pos t) (pos k) g).1 (bump key seen) i
      (next-Counts stream (pos t) (pos k) g seen c (omega (arith, b key)))
      (λ j. ground (arith, b j)) h
    ∙ ap pos (omega arith)

-- In the stream of fewer than 2^63 draws of a generator from `Factory.Generator`, operation number i has as its sequence number
-- one more than the number of operations before it that have the same key, whatever is drawn. So the
-- operations of a key are numbered 1, 2, 3, … without a gap.
pub run-numbered :
    (stream : ℤ → ℕ → ℕ) (ds : List (ℕ × ℕ)) (f : Factory) (i : ℕ) {op : Operation}
    → length ds < two63
    → get_elem? (run stream ds (generator f)) i ≡ some op
    → op.seq ≡ pos (suc (count_key op.key (take i (run stream ds (generator f)))))
run-numbered stream ds f i b h =
    run-seq stream ds (generator f) (λ k. 0) i (λ k. unfold generator lookup in refl)
      (λ k. omega arith) h
    ∙ ap pos (omega arith)
