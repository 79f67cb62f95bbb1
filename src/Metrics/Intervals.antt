-- ===== src/Metrics/Intervals.antt =====
-- The deltas of successive intervals add up to the last snapshot, bin by bin.
pub mod Calls
use proofload_sh.Prelude.{
  ℕ, ◌-◌, ◌≤◌, ◌<◌, ◌≡◌, refl, ap, ◌∙◌, arith, All, List, [], ◌∷◌, map, ℤ, pos,
}
use proofload_sh.Machine.{two63, add64, add64-pos, sub64-pos}
use proofload_sh.Metrics.{bin_deltas}

-- The bins of a later snapshot: as many, none smaller, and all in range.
abbrev pub Grows : List ℕ → List ℕ → Type 0
Grows [] [] = Unit
Grows (p ∷ ps) (c ∷ cs) = (p ≤ c) × (c < two63) × Grows ps cs
Grows _ _ = ⊥

-- The bins of the first snapshot are in range.
abbrev pub Small : List ℕ → Type 0
Small = All (λ n. n < two63)

-- Successive snapshots, each later than the one before.
abbrev pub Chain : List ℕ → List (List ℕ) → Type 0
Chain prev [] = Unit
Chain prev (c ∷ cs) = Grows prev c × Chain c cs

abbrev pub last_of : List ℕ → List (List ℕ) → List ℕ
last_of prev [] = prev
last_of prev (c ∷ cs) = last_of c cs

abbrev pub add_bins : List ℤ → List ℤ → List ℤ
add_bins [] ds = []
add_bins (x ∷ xs) [] = x ∷ xs
add_bins (x ∷ xs) (d ∷ ds) = add64 x d ∷ add_bins xs ds

abbrev pub add_all : List ℤ → List (List ℤ) → List ℤ
add_all acc [] = acc
add_all acc (d ∷ ds) = add_all (add_bins acc d) ds

add_bins-bin_deltas :
    (prev cur : List ℕ)
    → Grows prev cur
    → add_bins (map pos prev) (bin_deltas (map pos cur) (map pos prev)) ≡ map pos cur
unfolding bin_deltas
add_bins-bin_deltas [] [] g = refl
add_bins-bin_deltas [] (c ∷ cs) g = absurd g
add_bins-bin_deltas (p ∷ ps) [] g = absurd g
add_bins-bin_deltas (p ∷ ps) (c ∷ cs) g =
    let rest = add_bins-bin_deltas ps cs g.2 in
    ground (arith, rest, g.0, g.1, sub64-pos c p, add64-pos p (c - p))

pub add_bins-zero :
    (bins : List ℕ) → Small bins → add_bins (map (λ x. pos 0) bins) (map pos bins) ≡ map pos bins
add_bins-zero [] b = refl
add_bins-zero (n ∷ ns) b =
    let rest = add_bins-zero ns b.1 in let here = b.0 in ground (arith, rest, here, add64-pos 0 n)

-- The differences of successive snapshots.
abbrev pub differences : List ℕ → List (List ℕ) → List (List ℤ)
differences prev [] = []
differences prev (c ∷ cs) = bin_deltas (map pos c) (map pos prev) ∷ differences c cs

pub add_all-differences :
    (first : List ℕ) (later : List (List ℕ))
    → Chain first later
    → add_all (map pos first) (differences first later) ≡ map pos (last_of first later)
add_all-differences first [] c = refl
add_all-differences first (s ∷ ss) c =
    ap (λ acc. add_all acc (differences s ss)) (add_bins-bin_deltas first s c.0)
    ∙ add_all-differences s ss c.1
