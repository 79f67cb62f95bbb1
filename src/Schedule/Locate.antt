-- ===== src/Schedule/Locate.antt =====
-- `sort.Search` as ramp.go uses it: the binary search stops at a boundary of the predicate, and on the
-- segments of a ramp that boundary is the end of the segment of the index.
use proofload_sh.Prelude.{
  ℕ, zero, suc, ◌+◌, ◌-◌, ◌/◌, ◌≤◌, ◌≡◌, ◌⊎◌, inl, inr, Bool, true, false, arith, ltb, Bool-cases,
}
use proofload_sh.Schedule.{search}

-- `f` changes from false to true just before `k`.
pub record IsBoundary (f : ℕ → Bool) (k : ℕ) : Type 0 where
  pub below : (k ≡ 0) ⊎ (f (k - 1) ≡ false)
  pub above : f k ≡ true

-- From bounds i ≤ j where f is true at j and i is 0 or f is false just before it, binary search with fuel
-- for the distance between them ends at a boundary of f that is at most j, monotone or not.
pub search-IsBoundary :
    (fuel : ℕ) (f : ℕ → Bool) (i j : ℕ)
    → i ≤ j
    → j - i ≤ fuel
    → (i ≡ 0) ⊎ (f (i - 1) ≡ false)
    → f j ≡ true
    → IsBoundary f (search fuel f i j) × (search fuel f i j ≤ j)
unfolding search
search-IsBoundary zero f i j ij enough lo hi =
    let e : i ≡ j = omega arith in (record { below = lo; above = ground arith }, ij)
search-IsBoundary (suc fuel) f i j ij enough lo hi = elim (Bool-cases (ltb i j)) [
  | inr stop ↦ let e : i ≡ j = ground arith in rw stop (record { below = lo; above = rw e hi }, ij)
  | inl go ↦ rw go (elim (Bool-cases (f ((i + j) / 2))) [
    | inl t ↦
        let found = search-IsBoundary fuel f i ((i + j) / 2) (ground arith) (ground arith) lo t in
        rw t (found.0, ground arith)
    | inr t ↦ rw t (
        search-IsBoundary fuel f (suc ((i + j) / 2)) j (ground arith) (ground arith)
          (inr (let e : suc ((i + j) / 2) - 1 ≡ (i + j) / 2 = omega arith in rw e t)) hi)
  ])
]
