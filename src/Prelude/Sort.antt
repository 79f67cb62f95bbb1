-- ===== src/Prelude/Sort.antt =====
-- Go's stable sort, and what it keeps.
use Prim.Native.Nat.{ℕ, ◌+◌}
use Prim.Native.String.{String}
use mathlib.Core.Path.{◌≡◌, refl, sym, ◌∙◌}
use mathlib.Core.Bool.{Bool, true, false, ◌&&◌, ◌||◌}
use mathlib.Core.List.{List, [], ◌∷◌}
use native.Mathlib.Omega.{arith}
use mathlib.Core.Logic.{inl, inr}
use proofload_sh.Prelude.Tests.{if◌then◌else◌, ltb, eqb, codes, Bool-cases}
use proofload_sh.Prelude.Lists.{length, All}

-- `sort.SliceStable` by insertion: an entry goes before the entries that are not less than it.
module _ {ℓ} {A : Type ℓ} (less : A → A → Bool) where
  unfoldable pub insert_sorted : A → List A → List A
  insert_sorted x [] = x ∷ []
  insert_sorted x (y ∷ ys) =
      let rest = insert_sorted x ys in if less y x then y ∷ rest else x ∷ y ∷ ys

  unfoldable pub sort_stable : List A → List A
  sort_stable [] = []
  sort_stable (x ∷ xs) = insert_sorted x (sort_stable xs)

unfoldable pub less_codes : List ℕ → List ℕ → Bool
less_codes xs [] = false
less_codes [] (y ∷ ys) = true
less_codes (x ∷ xs) (y ∷ ys) = ltb x y || eqb x y && less_codes xs ys

-- The order of `sort.Strings`.
unfoldable pub less_text : String → String → Bool
unfolding less_codes
less_text a b = less_codes (codes a) (codes b)

-- How many entries pass a test.
module _ {ℓ} {A : Type ℓ} (test : A → Bool) where
  abbrev pub tally : List A → ℕ
  tally [] = 0
  tally (x ∷ xs) = (if test x then 1 else 0) + tally xs

  module _ (less : A → A → Bool) where
    tally-insert_sorted :
        (x : A) (ys : List A)
        → tally (insert_sorted less x ys) ≡ (if test x then 1 else 0) + tally ys
    unfolding insert_sorted
    tally-insert_sorted x [] = refl
    tally-insert_sorted x (y ∷ ys) = let rest = tally-insert_sorted x ys in ground (arith, rest)

    pub tally-sort_stable : (xs : List A) → tally (sort_stable less xs) ≡ tally xs
    unfolding sort_stable
    tally-sort_stable [] = refl
    tally-sort_stable (x ∷ xs) =
        let rest = tally-sort_stable xs in
        tally-insert_sorted x (sort_stable less xs) ∙ omega (arith, rest)

length-tally : {A : Type 0} (xs : List A) → tally (λ x. true) xs ≡ length xs
length-tally [] = refl
length-tally (x ∷ xs) = let rest = length-tally xs in ground (arith, rest)

pub length-sort_stable :
    {A : Type 0} (less : A → A → Bool) (xs : List A) → length (sort_stable less xs) ≡ length xs
length-sort_stable less xs =
    sym (length-tally (sort_stable less xs))
    ∙ tally-sort_stable (λ x. true) less xs
    ∙ length-tally xs

module _ {ℓ κ} {A : Type ℓ} (P : A → Type κ) (less : A → A → Bool) where
  insert_sorted-All : (x : A) (ys : List A) → P x → All P ys → All P (insert_sorted less x ys)
  unfolding insert_sorted
  insert_sorted-All x [] h k = (h, tt)
  insert_sorted-All x (y ∷ ys) h k =
      let rest = insert_sorted-All x ys h k.1 in
      elim (Bool-cases (less y x)) [ inl e ↦ rw e (k.0, rest) | inr e ↦ rw e (h, k) ]

  -- What holds of every entry holds of every entry in order.
  pub sort_stable-All : (xs : List A) → All P xs → All P (sort_stable less xs)
  unfolding sort_stable
  sort_stable-All [] h = tt
  sort_stable-All (x ∷ xs) h =
      insert_sorted-All x (sort_stable less xs) h.0 (sort_stable-All xs h.1)

-- No entry stands before one that it does not precede.
abbrev pub Sorted {ℓ κ} : {A : Type ℓ} (Le : A → A → Type κ) → List A → Type κ
Sorted Le [] = Unit
Sorted Le (x ∷ xs) = All (Le x) xs × Sorted Le xs

module _ {ℓ κ} {A : Type ℓ} (less : A → A → Bool) (Le : A → A → Type κ)
    (trans : (a b c : A) → Le a b → Le b c → Le a c) (before : (a b : A) → less a b ≡ true → Le a b)
    (after : (a b : A) → less a b ≡ false → Le b a) where
  All-insert_sorted :
      (a x : A) (ys : List A) → Le a x → All (Le a) ys → All (Le a) (insert_sorted less x ys)
  unfolding insert_sorted
  All-insert_sorted a x [] h k = (h, tt)
  All-insert_sorted a x (y ∷ ys) h k =
      let rest = All-insert_sorted a x ys h k.1 in
      elim (Bool-cases (less y x)) [ inl e ↦ rw e (k.0, rest) | inr e ↦ rw e (h, k) ]

  All-precede : (a b : A) (ys : List A) → Le a b → All (Le b) ys → All (Le a) ys
  All-precede a b [] h k = tt
  All-precede a b (y ∷ ys) h k = (trans a b y h k.0, All-precede a b ys h k.1)

  insert_sorted-Sorted : (x : A) (ys : List A) → Sorted Le ys → Sorted Le (insert_sorted less x ys)
  unfolding insert_sorted
  insert_sorted-Sorted x [] s = (tt, tt)
  insert_sorted-Sorted x (y ∷ ys) s =
      let rest = insert_sorted-Sorted x ys s.1 in
      elim (Bool-cases (less y x)) [
        | inl e ↦ rw e (All-insert_sorted y x ys (before y x e) s.0, rest)
        | inr e ↦ rw e ((after y x e, All-precede x y ys (after y x e) s.0), s)
      ]

  pub sort_stable-Sorted : (xs : List A) → Sorted Le (sort_stable less xs)
  unfolding sort_stable
  sort_stable-Sorted [] = tt
  sort_stable-Sorted (x ∷ xs) = insert_sorted-Sorted x (sort_stable less xs) (sort_stable-Sorted xs)
