-- ===== src/Prelude/Tests.antt =====
-- Boolean tests on the native numbers and on texts, the conditional, and case splits that keep
-- their equation.
use Prim.Native.Nat.{ℕ, ◌+◌, ◌≤◌, ◌<◌, compare, Ordering}
use mathlib.Core.Path.{◌≡◌, refl, ap}
use mathlib.Core.Logic.{◌↔◌, ◌⊎◌, inl, inr}
use mathlib.Core.Bool.{Bool, true, false, ◌&&◌, ◌||◌}
use mathlib.Core.Option.{Option, none, some}
use Prim.Native.String.{String}
use Prim.Native.Char.{code}
use mathlib.Core.List.{List, [], ◌∷◌}
use text.Mathlib.Text.{◌==◌ as str_eq}
use text.Mathlib.TextEquality.{eq_iff}
use native.Mathlib.Omega.{arith}

abbrev pub ltb : ℕ → ℕ → Bool
ltb a b = elim (compare a b) [ Ordering.lt ↦ true | _ ↦ false ]

abbrev pub leb : ℕ → ℕ → Bool
leb a b = elim (compare a b) [ Ordering.gt ↦ false | _ ↦ true ]

abbrev pub eqb : ℕ → ℕ → Bool
eqb a b = elim (compare a b) [ Ordering.eq ↦ true | _ ↦ false ]

infix 1 if◌then◌else◌
abbrev pub if◌then◌else◌ {ℓ} : {A : Type ℓ} → Bool → A → A → A
if true then x else y = x
if false then x else y = y

pub ltb→lt : (a b : ℕ) → ltb a b ≡ true → a < b
ltb→lt a b h = ground arith

pub lt→ltb : (a b : ℕ) → a < b → ltb a b ≡ true
lt→ltb a b h = ground arith

pub leb→le : (a b : ℕ) → leb a b ≡ true → a ≤ b
leb→le a b h = ground arith

pub eqb_iff : (a b : ℕ) → (eqb a b ≡ true) ↔ (a ≡ b)
eqb_iff a b = ground arith

pub ruleset tests = (arith, ltb→lt, lt→ltb, leb→le)

pub Bool-cases : (b : Bool) → (b ≡ true) ⊎ (b ≡ false)
Bool-cases true = inl refl
Bool-cases false = inr refl

pub Option-cases {ℓ} : {A : Type ℓ} (o : Option A) → (o ≡ none) ⊎ ((a : A) × (o ≡ some a))
Option-cases none = inl refl
Option-cases (some a) = inr (a, refl)

infixl 5 ◌>>=◌
abbrev pub ◌>>=◌ {ℓ κ} : {A : Type ℓ} {B : Type κ} → Option A → (A → Option B) → Option B
none >>= f = none
some a >>= f = f a

-- Equality of keys: a test that decides `≡`.
pub record Eq {ℓ} (A : Type ℓ) : Type ℓ where
  pub beq : A → A → Bool
  pub beq_iff : (x y : A) → (beq x y ≡ true) ↔ (x ≡ y)

abbrev pub is_some {ℓ} : {A : Type ℓ} → Option A → Bool
is_some none = false
is_some (some a) = true

infix 50 ◌==◌
abbrev pub ◌==◌ {ℓ} : {A : Type ℓ} ⦃e : Eq A⦄ → A → A → Bool
◌==◌ ⦃e⦄ = e.beq

-- The code points of a text.
abbrev pub codes : String → List ℕ
codes String.[] = []
codes (String.◌∷◌ c s) = code c ∷ codes s

instance abbrev pub nat_eq : Eq ℕ
nat_eq = record { beq = eqb; beq_iff = eqb_iff }

instance abbrev pub string_eq : Eq String
string_eq = record { beq = str_eq; beq_iff = eq_iff }

abbrev pub eq_codes : List ℕ → List ℕ → Bool
eq_codes [] [] = true
eq_codes [] (y ∷ ys) = false
eq_codes (x ∷ xs) [] = false
eq_codes (x ∷ xs) (y ∷ ys) = elim (eqb x y) [ true ↦ eq_codes xs ys | false ↦ false ]

pub eq_codes_iff : (xs ys : List ℕ) → (eq_codes xs ys ≡ true) ↔ (xs ≡ ys)
eq_codes_iff [] [] = (λ h. refl, λ h. refl)
eq_codes_iff [] (y ∷ ys) = (λ h. cc, λ h. cc)
eq_codes_iff (x ∷ xs) [] = (λ h. cc, λ h. cc)
eq_codes_iff (x ∷ xs) (y ∷ ys) = ground (arith, eq_codes_iff xs ys, eqb_iff x y)

abbrev pub eq_names : List String → List String → Bool
eq_names [] [] = true
eq_names [] (y ∷ ys) = false
eq_names (x ∷ xs) [] = false
eq_names (x ∷ xs) (y ∷ ys) = elim (x == y) [ true ↦ eq_names xs ys | false ↦ false ]

pub eq_names_iff : (xs ys : List String) → (eq_names xs ys ≡ true) ↔ (xs ≡ ys)
eq_names_iff [] [] = (λ h. refl, λ h. refl)
eq_names_iff [] (y ∷ ys) = (λ h. cc, λ h. cc)
eq_names_iff (x ∷ xs) [] = (λ h. cc, λ h. cc)
eq_names_iff (x ∷ xs) (y ∷ ys) = ground (arith, eq_names_iff xs ys, eq_iff x y)

-- `strings.ToLower` on the ASCII letters.
abbrev pub lower : ℕ → ℕ
lower c = if (elim (ltb c b'A') [ true ↦ false | false ↦ leb c b'Z' ]) then c + 32 else c

-- `strings.HasPrefix` and `strings.Contains` on code points.
unfoldable pub has_prefix : List ℕ → List ℕ → Bool
has_prefix [] xs = true
has_prefix (p ∷ ps) [] = false
has_prefix (p ∷ ps) (x ∷ xs) = eqb p x && has_prefix ps xs

unfoldable pub contains : List ℕ → List ℕ → Bool
unfolding has_prefix
contains part [] = has_prefix part []
contains part (x ∷ xs) = has_prefix part (x ∷ xs) || contains part xs

pub some_injective {ℓ} : {A : Type ℓ} (a b : A) → some a ≡ some b → a ≡ b
some_injective a b e = ap (λ o. elim o [ none ↦ a | some x ↦ x ]) e

-- A chain has a result exactly when each of its steps has one.
pub bind-some {ℓ κ} :
    {A : Type ℓ} {B : Type κ} (o : Option A) (f : A → Option B) (b : B)
    → (o >>= f) ≡ some b
    → (a : A) × (o ≡ some a) × (f a ≡ some b)
bind-some none f b e = cc
bind-some (some a) f b e = (a, refl, e)
