-- ===== src/Nemesis/Unroll.antt =====
-- The repeats of a fault: the offsets at which one spec occurs within the window.
use proofload_sh.Prelude.{
  ℕ, zero, suc, ◌+◌, ◌*◌, ◌≤◌, ◌<◌, ◌≡◌, ap, ◌∙◌, arith, some, List, [], ◌∷◌, pos, Bool-cases, inl,
  inr, leb,
}
use proofload_sh.Machine.{add64, add64-pos, two63}
use proofload_sh.Nemesis.{FaultSpec, Occurrence, occurrences}

-- The occurrences at the first `n` times of the progression.
abbrev pub repeated : FaultSpec → ℕ → ℕ → ℕ → ℕ → List Occurrence
repeated sp index start gap zero = []
repeated sp index start gap (suc n) =
    record { time = pos start; index = index; spec = sp } ∷ repeated sp index (start + gap) gap n

-- A spec that repeats every `gap` nanoseconds occurs at its start and every `gap` from there, up to the last
-- of these times before the end of the window, if fuel for the window's length is given and no time
-- overflows. The window is not empty, and the start is not negative and before the first time a gap past its end.
pub occurrences-repeated :
    (fuel index start gap end : ℕ) (sp : FaultSpec)
    → sp.repeat ≡ pos gap
    → 0 < gap
    → 0 < end
    → end + gap < two63
    → start < end + gap
    → end + gap ≤ start + fuel
    → (n : ℕ) × (occurrences fuel sp index (pos start) (pos end)
        ≡ some (repeated sp index start gap n))
      × (end ≤ start + n * gap)
      × (start + n * gap < end + gap)
unfolding occurrences
occurrences-repeated zero index start gap end sp r g e b s f =
    (0, ground arith, omega arith, omega arith)
occurrences-repeated (suc fuel) index start gap end sp r g e b s f =
    elim (Bool-cases (leb end start)) [
      | inl over ↦ (0, ground (arith, over), ground (arith, over), ground arith)
      | inr within ↦
          let (n, next, low, high) =
            occurrences-repeated fuel index (start + gap) gap end sp r g e b
              (ground (arith, within)) (omega arith) in
          let later : add64 (pos start) sp.repeat ≡ pos (start + gap) =
            ap (add64 (pos start)) r ∙ add64-pos start gap (ground (arith, within)) in
          (suc n, ground (arith, within, later, next, r), grind arith, grind arith)
    ]
