-- ===== src/Prelude/Count.antt =====
-- Counting the numbers below a bound that pass a test, and the entries of a map with such keys.
use Prim.Native.Nat.{ℕ, zero, suc, ◌+◌, ◌≤◌, ◌<◌}
use mathlib.Core.Path.{◌≡◌, refl, ap, sym, ◌∙◌}
use mathlib.Core.Logic.{inl, inr}
use mathlib.Core.Bool.{Bool, true}
use mathlib.Core.List.{[]}
use native.Mathlib.Omega.{arith}
use proofload_sh.Prelude.Tests.{eqb, if◌then◌else◌, Bool-cases, Option-cases, is_some}
use proofload_sh.Prelude.Lists.{length}
use proofload_sh.Prelude.Int.{ℤ, pos, int_eq}
use proofload_sh.Prelude.Maps.{Dict, lookup, insert, lookup-insert, length-insert}

-- How many of the numbers below `n` pass the test.
unfoldable pub count : (ℕ → Bool) → ℕ → ℕ
count f zero = 0
count f (suc n) = (if f n then 1 else 0) + count f n

pub count_le : (f : ℕ → Bool) (n : ℕ) → count f n ≤ n
unfolding count
count_le f zero = omega arith
count_le f (suc n) = ground (arith, count_le f n)

pub count_full : (f : ℕ → Bool) (n i : ℕ) → count f n ≡ n → i < n → f i ≡ true
unfolding count
count_full f zero i e h = absurd (omega arith)
count_full f (suc n) i e h = ground (arith, count_le f n, count_full f n i)

pub count_same : (f g : ℕ → Bool) (n : ℕ) → ((i : ℕ) → i < n → g i ≡ f i) → count g n ≡ count f n
unfolding count
count_same f g zero e = refl
count_same f g (suc n) e = rw (e n (omega arith), count_same f g n (λ i h. e i (omega arith))) refl

-- Setting the test at k adds one to the count, unless it was set.
pub count_take :
    (f g : ℕ → Bool) (n k : ℕ)
    → ((i : ℕ) → g i ≡ (if eqb k i then true else f i))
    → k < n
    → count g n ≡ (if f k then count f n else suc (count f n))
unfolding count
count_take f g zero k e h = absurd (omega arith)
count_take f g (suc n) k e h = elim (Bool-cases (eqb k n)) [
  | inl last ↦
      let same = count_same f g n (λ i below. ground (arith, e i)) in ground (arith, e n, same)
  | inr other ↦ ground (arith, e n, count_take f g n k e)
]

-- A map read at the natural numbers.
abbrev pub taken : {V : Type 0} → Dict ℤ V → ℕ → Bool
taken m i = is_some (lookup (pos i) m)

pub taken-insert :
    {V : Type 0} (m : Dict ℤ V) (k i : ℕ) (v : V)
    → taken (insert (pos k) v m) i ≡ (if eqb k i then true else taken m i)
taken-insert m k i v = ground (arith, lookup-insert (pos k) (pos i) v m)

-- An entry for k keeps "as many entries as numbers below n that are taken".
pub length-insert-count :
    {V : Type 0} (m : Dict ℤ V) (n k : ℕ) (v : V)
    → k < n
    → length m ≡ count (taken m) n
    → length (insert (pos k) v m) ≡ count (taken (insert (pos k) v m)) n
length-insert-count m n k v h e =
    let seen =
      count_take (taken m) (taken (insert (pos k) v m)) n k (λ i. taken-insert m k i v) h in
    elim (Option-cases (lookup (pos k) m)) [
      | inl free ↦
          let grown = length-insert (pos k) v m in
          rw free at grown ∙ ap suc e ∙ sym (rw free at seen)
      | inr (w, held) ↦
          let same = length-insert (pos k) v m in rw held at same ∙ e ∙ sym (rw held at seen)
    ]

-- An empty map has no key.
pub count-taken : (V : Type 0) (n : ℕ) → count (taken {V = V} []) n ≡ 0
unfolding count lookup
count-taken V zero = refl
count-taken V (suc n) = ground (arith, count-taken V n)
