-- ===== src/Machine.antt =====
-- Go's 64-bit integers. An `int64` (also `int` and `time.Duration`) is an integer ℤ whose arithmetic
-- wraps around at 2^63; a `uint64` is a number below 2^64.
use native.Mathlib.Nat.{div-le_self, mod-le}
use proofload_sh.Prelude.{
  ℕ, ◌+◌, ◌-◌, ◌*◌, ◌/◌, ◌%◌, ◌≤◌, ◌<◌, ◌≡◌, arith, ltb, if◌then◌else◌, ℤ, pos, negsuc, pos_part,
  neg_part, ◌+ℤ◌, ◌-ℤ◌, ◌*ℤ◌, quot, rem,
}

abbrev pub two63 : ℕ
two63 = 9223372036854775808

abbrev pub two64 : ℕ
two64 = 18446744073709551616

-- The integer in [-2^63, 2^63) that is congruent modulo 2^64.
unfoldable pub wrap : ℤ → ℤ
wrap (pos n) = let r = n % two64 in if ltb r two63 then pos r else negsuc (two64 - 1 - r)
wrap (negsuc n) = let r = n % two64 in if ltb r two63 then negsuc r else pos (two64 - 1 - r)

unfoldable pub add64 : ℤ → ℤ → ℤ
unfolding wrap ◌+ℤ◌
add64 a b = wrap (a +ℤ b)

unfoldable pub sub64 : ℤ → ℤ → ℤ
unfolding wrap ◌-ℤ◌
sub64 a b = wrap (a -ℤ b)

unfoldable pub mul64 : ℤ → ℤ → ℤ
unfolding wrap ◌*ℤ◌
mul64 a b = wrap (a *ℤ b)

-- A division by zero panics in Go; every caller tests its divisor first.
unfoldable pub div64 : ℤ → ℤ → ℤ
unfolding wrap quot
div64 a b = wrap (quot a b)

unfoldable pub rem64 : ℤ → ℤ → ℤ
unfolding wrap rem
rem64 a b = wrap (rem a b)

-- An integer that an `int64` can hold.
abbrev pub InInt64 : ℤ → Type 0
InInt64 a = (pos_part a < two63) × (neg_part a ≤ two63)

pub wrap_id : (a : ℤ) → InInt64 a → wrap a ≡ a
unfolding wrap
wrap_id (pos n) h = ground arith
wrap_id (negsuc n) h = ground arith

pub wrap-InInt64 : (a : ℤ) → InInt64 (wrap a)
unfolding wrap
wrap-InInt64 (pos n) = ground arith
wrap-InInt64 (negsuc n) = ground arith

-- On non-negative values whose result fits, the operations are those of ℕ.
pub add64-pos : (a b : ℕ) → a + b < two63 → add64 (pos a) (pos b) ≡ pos (a + b)
unfolding add64
add64-pos a b h = ground arith

pub sub64-pos : (a b : ℕ) → b ≤ a → a < two63 → sub64 (pos a) (pos b) ≡ pos (a - b)
unfolding sub64
sub64-pos a b h k = ground arith

pub mul64-pos : (a b : ℕ) → a * b < two63 → mul64 (pos a) (pos b) ≡ pos (a * b)
unfolding mul64
mul64-pos a b h = ground arith

pub div64-pos : (a b : ℕ) → a < two63 → div64 (pos a) (pos b) ≡ pos (a / b)
unfolding div64
div64-pos a b h = ground (arith, div-le_self a b)

pub rem64-pos : (a b : ℕ) → a < two63 → rem64 (pos a) (pos b) ≡ pos (a % b)
unfolding rem64
rem64-pos a b h = ground (arith, mod-le a b)
