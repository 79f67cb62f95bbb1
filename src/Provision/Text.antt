-- ===== src/Provision/Text.antt =====
-- `strings.LastIndex` of one character, `strings.TrimSpace` and the numbers at the end of a text.
use proofload_sh.Prelude.{
  ℕ, ◌+◌, ◌-◌, ◌*◌, ◌≤◌, ◌<◌, ◌≡◌, ◌≢◌, refl, ap, ◌∙◌, arith, ◌⊎◌, Bool, true, false, ◌&&◌, ◌||◌,
  Option, none, some, [], ◌∷◌, ◌++◌, if◌then◌else◌, ◌>>=◌, ◌-ℤ◌, All, All-mono, eqb, ltb, leb, ℤ,
  pos, number_of, decimal,
}
use proofload_sh.Prelude.Decimal.{IsDigit, decimal-cons, decimal-All, number_of-decimal}
use proofload_sh.Machine.{two63, add64, mul64, mul64-pos, add64-pos}
use proofload_sh.Provision.{Text}

-- What follows the last occurrence of a character, if there is one.
unfoldable pub after_last : ℕ → Text → Option Text
after_last c [] = none
after_last c (x ∷ xs) = elim (after_last c xs) [
  | some rest ↦ some rest
  | none ↦ if eqb x c then some xs else none
]

abbrev pub is_space : ℕ → Bool
is_space c = eqb c 32 || leb 9 c && leb c 13

unfoldable pub trim_left : Text → Text
trim_left [] = []
trim_left (c ∷ cs) = elim (is_space c) [ true ↦ trim_left cs | false ↦ c ∷ cs ]

unfoldable pub trim_right : Text → Text
trim_right [] = []
trim_right (c ∷ cs) = elim (trim_right cs) [
  | [] ↦ if is_space c then [] else c ∷ []
  | d ∷ ds ↦ c ∷ d ∷ ds
]

unfoldable pub trim_space : Text → Text
unfolding trim_left trim_right
trim_space s = trim_right (trim_left s)

-- The loop of `parsePort`, in an int that wraps around.
unfoldable pub parse_digits : ℤ → Text → ℤ
parse_digits n [] = n
parse_digits n (c ∷ cs) =
    let rest = parse_digits (add64 (mul64 n (pos 10)) (pos (c - 48))) cs in
    if ltb c 48 || ltb 57 c then pos 0 else rest

-- `parsePort`
unfoldable pub parse_port : Text → ℤ
unfolding trim_space parse_digits
parse_port s = parse_digits (pos 0) (trim_space s)

pub all_digits : Text → Bool
all_digits [] = true
all_digits (c ∷ cs) = leb 48 c && leb c 57 && all_digits cs

unsigned_digits : Text → Option ℕ
unfolding all_digits
unsigned_digits [] = none
unsigned_digits (c ∷ cs) = if all_digits (c ∷ cs) then some (number_of 0 (c ∷ cs)) else none

-- `strconv.Atoi`
unfoldable pub atoi : Text → Option ℤ
unfolding unsigned_digits
atoi [] = none
atoi (c ∷ cs) =
    if eqb c 43
    then (unsigned_digits cs >>= λ n. if ltb n two63 then some (pos n) else none)
    else if eqb c 45
    then (unsigned_digits cs >>= λ n. if leb n two63 then some (pos 0 -ℤ pos n) else none)
    else (unsigned_digits (c ∷ cs) >>= λ n. if ltb n two63 then some (pos n) else none)

after_last-none : (c : ℕ) (ys : Text) → All (λ y. y ≢ c) ys → after_last c ys ≡ none
unfolding after_last
after_last-none c [] h = refl
after_last-none c (y ∷ ys) h = let rest = after_last-none c ys h.1 in ground (arith, rest, h.0)

pub after_last-append :
    (c : ℕ) (xs ys : Text) → All (λ y. y ≢ c) ys → after_last c (xs ++ c ∷ ys) ≡ some ys
unfolding after_last
after_last-append c [] ys h = ground (arith, after_last-none c ys h)
after_last-append c (x ∷ xs) ys h = let rest = after_last-append c xs ys h in ground (arith, rest)

number_of-le : (v : ℕ) (ds : Text) → v ≤ number_of v ds
number_of-le v [] = omega arith
number_of-le v (d ∷ ds) = let rest = number_of-le (v * 10 + (d - 48)) ds in omega (arith, rest)

parse_digits-digits :
    (v : ℕ) (ds : Text)
    → All IsDigit ds
    → number_of v ds < two63
    → parse_digits (pos v) ds ≡ pos (number_of v ds)
unfolding parse_digits
parse_digits-digits v [] h fits = refl
parse_digits-digits v (d ∷ ds) h fits =
    let next = number_of-le (v * 10 + (d - 48)) ds in
    let rest = parse_digits-digits (v * 10 + (d - 48)) ds h.1 fits in
    ground (
      arith,
      rest,
      h.0,
      mul64-pos v 10 (omega (arith, next, fits)),
      add64-pos (v * 10) (d - 48) (omega (arith, next, fits)),
    )

trim_right-digits : (ds : Text) → All IsDigit ds → trim_right ds ≡ ds
unfolding trim_right
trim_right-digits [] h = refl
trim_right-digits (d ∷ ds) h = let rest = trim_right-digits ds h.1 in ground (arith, rest, h.0)

pub trim_space-digits : (ds : Text) → All IsDigit ds → trim_space ds ≡ ds
unfolding trim_space trim_left
trim_space-digits [] h = refl
trim_space-digits (d ∷ ds) h = ground (arith, trim_right-digits (d ∷ ds) h, h.0)

pub parse_port-decimal : (n : ℕ) → n < two63 → parse_port (decimal n) ≡ pos n
unfolding parse_port
parse_port-decimal n h =
    ap (parse_digits (pos 0)) (trim_space-digits (decimal n) (decimal-All n))
    ∙ parse_digits-digits 0 (decimal n) (decimal-All n) (omega (arith, h, number_of-decimal n))
    ∙ ap pos (number_of-decimal n)

all_digits-digits : (ds : Text) → All IsDigit ds → all_digits ds ≡ true
unfolding all_digits
all_digits-digits [] h = refl
all_digits-digits (d ∷ ds) h = let rest = all_digits-digits ds h.1 in ground (arith, rest, h.0)

atoi-digits :
    (ds : Text)
    → All IsDigit ds
    → ds ≢ []
    → number_of 0 ds < two63
    → atoi ds ≡ some (pos (number_of 0 ds))
unfolding atoi unsigned_digits
atoi-digits [] h ne fits = absurd (ne refl)
atoi-digits (d ∷ ds) h ne fits = ground (arith, all_digits-digits (d ∷ ds) h, h.0, fits)

pub atoi-decimal : (n : ℕ) → n < two63 → atoi (decimal n) ≡ some (pos n)
atoi-decimal n h =
    atoi-digits (decimal n) (decimal-All n) (decimal-cons n) (omega (arith, h, number_of-decimal n))
    ∙ ap (λ m. some (pos m)) (number_of-decimal n)

-- The digits of a number have no other character.
pub decimal-apart : (c n : ℕ) → (c < 48) ⊎ (57 < c) → All (λ d. d ≢ c) (decimal n)
decimal-apart c n h =
    All-mono IsDigit (λ d. d ≢ c) (λ d k. ground (arith, h, k)) (decimal n) (decimal-All n)
