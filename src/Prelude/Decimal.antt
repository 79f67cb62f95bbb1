-- ===== src/Prelude/Decimal.antt =====
-- `strconv.FormatInt` in base 10, as code points, and the number that decimal digits stand for.
use Prim.Native.Nat.{ℕ, zero, suc, ◌+◌, ◌-◌, ◌*◌, ◌/◌, ◌%◌, ◌≤◌, ◌<◌}
use mathlib.Core.Path.{◌≡◌}
use mathlib.Core.Bool.{true, false}
use mathlib.Core.List.{List, [], ◌∷◌}
use mathlib.Core.Logic.{◌≢◌}
use native.Mathlib.Omega.{arith}
use proofload_sh.Prelude.Tests.{ltb}
use proofload_sh.Prelude.Lists.{All}
use proofload_sh.Prelude.Int.{ℤ, pos, negsuc}

-- The digits of n before those of acc. The fuel is at least the number of digits.
digits : ℕ → ℕ → List ℕ → List ℕ
digits zero n acc = acc
digits (suc fuel) n acc = elim (ltb n 10) [
  | true ↦ (48 + n) ∷ acc
  | false ↦ digits fuel (n / 10) ((48 + n % 10) ∷ acc)
]

pub decimal : ℕ → List ℕ
unfolding digits
decimal n = digits (suc n) n []

unfoldable pub format_int : ℤ → List ℕ
format_int (pos n) = decimal n
format_int (negsuc n) = 45 ∷ decimal (suc n)

-- What digits after those of v stand for.
abbrev pub number_of : ℕ → List ℕ → ℕ
number_of v [] = v
number_of v (c ∷ cs) = number_of (v * 10 + (c - 48)) cs

tenth : (n : ℕ) → (n / 10) * 10 + (48 + n % 10 - 48) ≡ n
tenth n = omega arith

number_of-digits :
    (fuel n : ℕ) (acc : List ℕ) → n < fuel → number_of 0 (digits fuel n acc) ≡ number_of n acc
unfolding digits
number_of-digits zero n acc h = omega (arith, h)
number_of-digits (suc fuel) n acc h =
    let rest = number_of-digits fuel (n / 10) ((48 + n % 10) ∷ acc) in ground (arith, rest, tenth n)

-- The number that the decimal text of n stands for is n.
pub number_of-decimal : (n : ℕ) → number_of 0 (decimal n) ≡ n
unfolding decimal
number_of-decimal n = number_of-digits (suc n) n [] (omega arith)

abbrev pub IsDigit : ℕ → Type 0
IsDigit c = (48 ≤ c) × (c ≤ 57)

All-digits : (fuel n : ℕ) (acc : List ℕ) → All IsDigit acc → All IsDigit (digits fuel n acc)
unfolding digits
All-digits zero n acc h = h
All-digits (suc fuel) n acc h =
    let rest = All-digits fuel (n / 10) ((48 + n % 10) ∷ acc) in ground (arith, rest)

pub decimal-All : (n : ℕ) → All IsDigit (decimal n)
unfolding decimal
decimal-All n = All-digits (suc n) n [] tt

digits-cons : (fuel n d : ℕ) (acc : List ℕ) → digits fuel n (d ∷ acc) ≢ []
unfolding digits
digits-cons zero n d acc e = cc
digits-cons (suc fuel) n d acc e =
    let rest = digits-cons fuel (n / 10) (48 + n % 10) (d ∷ acc) in ground (arith, e, rest)

-- A number has a digit.
pub decimal-cons : (n : ℕ) → decimal n ≢ []
unfolding decimal digits
decimal-cons n e = let rest = digits-cons n (n / 10) (48 + n % 10) [] in ground (arith, e, rest)
