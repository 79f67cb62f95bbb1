-- ===== src/Prelude/Names.antt =====
-- The names of a map in the order of `sort.Strings`, and what a loop over them reads.
use Prim.Native.Nat.{ℕ, suc, ◌+◌}
use Prim.Native.String.{String}
use mathlib.Core.Path.{◌≡◌, refl, sym, ap, subst, ◌∙◌}
use mathlib.Core.Logic.{inl, inr}
use mathlib.Core.Bool.{Bool, true, false}
use mathlib.Core.Option.{none, some}
use mathlib.Core.List.{List, [], ◌∷◌, map}
use native.Mathlib.Omega.{arith}
use proofload_sh.Prelude.Tests.{if◌then◌else◌, codes, is_some, string_eq, ◌==◌, Eq, Bool-cases}
use proofload_sh.Prelude.Lists.{keep, replicate, All, All-mono}
use proofload_sh.Prelude.Maps.{Dict, lookup, insert, lookup-insert}
use proofload_sh.Prelude.Sort.{
  less_codes, less_text, sort_stable, Sorted, sort_stable-Sorted, sort_stable-All, tally,
  tally-sort_stable,
}

less_codes_asym : (xs ys : List ℕ) → less_codes xs ys ≡ true → less_codes ys xs ≡ false
unfolding less_codes
less_codes_asym [] [] h = refl
less_codes_asym (x ∷ xs) [] h = cc
less_codes_asym [] (y ∷ ys) h = refl
less_codes_asym (x ∷ xs) (y ∷ ys) h = ground (arith, less_codes_asym xs ys)

not_less_trans :
    (xs ys zs : List ℕ)
    → less_codes ys xs ≡ false
    → less_codes zs ys ≡ false
    → less_codes zs xs ≡ false
unfolding less_codes
not_less_trans [] ys [] h k = refl
not_less_trans [] ys (z ∷ zs) h k = refl
not_less_trans (x ∷ xs) [] zs h k = cc
not_less_trans (x ∷ xs) (y ∷ ys) [] h k = cc
not_less_trans (x ∷ xs) (y ∷ ys) (z ∷ zs) h k = ground (arith, not_less_trans xs ys zs)

-- The order in which `sort.Strings` leaves two names.
abbrev pub InOrder : String → String → Type 0
InOrder a b = less_text b a ≡ false

-- The keys of a map, in any order.
abbrev pub keys {ℓ κ} : {K : Type ℓ} {V : Type κ} → Dict K V → List K
keys [] = []
keys ((k, v) ∷ m) = k ∷ keys m

replicate-if {ℓ} :
    {A : Type ℓ} (b : Bool) (n : ℕ) (a : A)
    → replicate ((if b then 1 else 0) + n) a ≡ (if b then a ∷ replicate n a else replicate n a)
replicate-if true n a = let e : 1 + n ≡ suc n = omega arith in rw e refl
replicate-if false n a = let e : 0 + n ≡ n = omega arith in rw e refl

module _ {ℓ κ} {K : Type ℓ} {V : Type κ} ⦃e : Eq K⦄ where
  -- Each key has one entry.
  abbrev pub Distinct : Dict K V → Type ℓ
  Distinct m = (k : K) → tally (λ j. j == k) (keys m) ≡ (if is_some (lookup k m) then 1 else 0)

  keys-insert :
      (k j : K) (v : V) (m : Dict K V)
      → tally (λ i. i == j) (keys (insert k v m))
        ≡ tally (λ i. i == j) (keys m)
          + (if k == j then (if is_some (lookup j m) then 0 else 1) else 0)
  unfolding lookup insert
  keys-insert k j v [] = ground arith
  keys-insert k j v ((i, u) ∷ m) =
      let rest = keys-insert k j v m in
      ground (arith, rest, e.beq_iff k j, e.beq_iff i j, e.beq_iff i k)

  pub insert-Distinct : (k : K) (v : V) (m : Dict K V) → Distinct m → Distinct (insert k v m)
  insert-Distinct k v m h j = ground (arith, h j, keys-insert k j v m, lookup-insert k j v m)

  absent : (k : K) (m : Dict K V) → tally (λ j. j == k) (keys m) ≡ 0 → lookup k m ≡ none
  unfolding lookup
  absent k [] h = refl
  absent k ((i, u) ∷ m) h = ground (arith, absent k m, h)

  -- The key of the first entry is on no other one.
  pub Distinct-tail :
      (k : K) (v : V) (m : Dict K V) → Distinct ((k, v) ∷ m) → Distinct m × (lookup k m ≡ none)
  unfolding lookup
  Distinct-tail k v m h = (
    λ j. ground (arith, h j, absent j m, e.beq_iff k j),
    absent k m (ground (arith, h k, e.beq_iff k k)),
  )

  pub keep-map :
      (f : K → V) (k : K) (names : List K)
      → keep (λ (p : K × V). p.0 == k) (map (λ j. (j, f j)) names)
        ≡ replicate (tally (λ j. j == k) names) (k, f k)
  keep-map f k [] = refl
  keep-map f k (j ∷ names) =
      let entry : K × V = (k, f k) in
      let rest = keep-map f k names in
      ground (arith, rest, e.beq_iff j k, replicate-if (j == k) (tally (λ i. i == k) names) entry)

pub empty-Distinct {ℓ κ} : (K : Type ℓ) (V : Type κ) ⦃e : Eq K⦄ → Distinct {K = K} {V = V} []
unfolding lookup
empty-Distinct K V k = refl

module _ {ℓ} {V : Type ℓ} where
  unfoldable pub sorted_keys : Dict String V → List String
  sorted_keys m = sort_stable less_text (keys m)

  abbrev pub lookup_or : V → String → Dict String V → V
  lookup_or d k m = elim (lookup k m) [ none ↦ d | some v ↦ v ]

  pub sorted_keys-Sorted : (m : Dict String V) → Sorted InOrder (sorted_keys m)
  unfolding sorted_keys less_text
  sorted_keys-Sorted m =
      sort_stable-Sorted less_text InOrder (λ a b c. not_less_trans (codes a) (codes b) (codes c))
        (λ a b. less_codes_asym (codes a) (codes b)) (λ a b h. h) (keys m)

  -- What holds of every entry of a map holds of the entry that is inserted last.
  pub All-insert {κ} :
      (P : String × V → Type κ) (k : String) (v : V) (m : Dict String V)
      → P (k, v)
      → All P m
      → All P (insert k v m)
  unfolding insert
  All-insert P k v [] h g = (h, tt)
  All-insert P k v ((i, u) ∷ m) h g = elim (Bool-cases (i == k)) [
    | inl e ↦ rw e (h, g.1)
    | inr e ↦ rw e (g.0, All-insert P k v m h g.1)
  ]

  module _ {κ} (R : String × V → Type κ) (d : V) where
    under_head :
        (k : String) (v : V) (m : Dict String V)
        → R (k, v)
        → (j : String) → R (j, lookup_or d j m)
        → R (j, lookup_or d j ((k, v) ∷ m))
    unfolding lookup
    under_head k v m h j g = chosen (k == j) refl
      where
        chosen :
            (b : Bool)
            → (k == j) ≡ b
            → R (j, elim (if b then some v else lookup j m) [ none ↦ d | some w ↦ w ])
        chosen true e = subst (λ i. R (i, v)) ((string_eq.beq_iff k j).0 e) h
        chosen false e = g

    All-keys : (m : Dict String V) → All R m → All (λ k. R (k, lookup_or d k m)) (keys m)
    unfolding lookup
    All-keys [] h = tt
    All-keys ((k, v) ∷ m) h = (
      subst (λ b. R (k, elim (if b then some v else lookup k m) [ none ↦ d | some w ↦ w ]))
          (sym ((string_eq.beq_iff k k).1 refl)) h.0,
      All-mono (λ j. R (j, lookup_or d j m)) (λ j. R (j, lookup_or d j ((k, v) ∷ m)))
          (under_head k v m h.0) (keys m) (All-keys m h.1),
    )

  -- What a loop over the names in order reads: each name with its value.
  unfoldable pub sorted_entries : V → Dict String V → List (String × V)
  sorted_entries d m = map (λ k. (k, lookup_or d k m)) (sorted_keys m)

  -- A loop over the names in order reads each entry of the map once, and nothing else.
  pub sorted_entries-keep :
      (d : V) (k : String) (m : Dict String V)
      → Distinct m
      → keep (λ p. p.0 == k) (sorted_entries d m)
        ≡ (elim (lookup k m) [ none ↦ [] | some v ↦ (k, v) ∷ [] ])
  unfolding sorted_entries sorted_keys
  sorted_entries-keep d k m h =
      keep-map (λ j. lookup_or d j m) k (sort_stable less_text (keys m))
      ∙ ap (λ n. replicate n (k, lookup_or d k m))
          (tally-sort_stable (λ j. j == k) less_text (keys m) ∙ h k)
      ∙ ground arith

  map-named :
      (f : String → V) (names : List String)
      → map (λ (p : String × V). p.0) (map (λ k. (k, f k)) names) ≡ names
  map-named f [] = refl
  map-named f (k ∷ names) = ap (λ l. k ∷ l) (map-named f names)

  pub sorted_entries-names :
      (d : V) (m : Dict String V)
      → map (λ (p : String × V). p.0) (sorted_entries d m) ≡ sorted_keys m
  unfolding sorted_entries
  sorted_entries-names d m = map-named (λ k. lookup_or d k m) (sorted_keys m)

  All-map {κ} :
      (R : String × V → Type κ) (f : String → V) (names : List String)
      → All (λ k. R (k, f k)) names
      → All R (map (λ k. (k, f k)) names)
  All-map R f [] h = tt
  All-map R f (k ∷ names) h = (h.0, All-map R f names h.1)

  -- What holds of the entries of a map holds of what the loop reads.
  pub sorted_entries-All {κ} :
      (R : String × V → Type κ) (d : V) (m : Dict String V) → All R m → All R (sorted_entries d m)
  unfolding sorted_entries sorted_keys
  sorted_entries-All R d m h =
      All-map R (λ k. lookup_or d k m) (sorted_keys m)
        (sort_stable-All (λ k. R (k, lookup_or d k m)) less_text (keys m) (All-keys R d m h))
