-- ===== src/Kafka/Analysis/Tally.antt =====
-- The gaps and the repeats that `analyzeLog` counts for one key are the numbers missing from the range of
-- its sequence numbers, and the records beyond one for each number.
use proofload_sh.Prelude.{
  ℕ, zero, suc, ◌+◌, ◌-◌, ◌≤◌, ◌<◌, ◌≡◌, refl, ap, sym, ◌∙◌, arith, Bool, true, false, not, ◌&&◌,
  ◌||◌, List, [], ◌∷◌, map, All, ℤ, pos, leb, ltb, eqb, if◌then◌else◌, length, Dict, lookup, insert,
  int_eq, length-insert, length-map,
}
use proofload_sh.Prelude.Count.{
  count, count_same, count-taken, taken, taken-insert, length-insert-count,
}
use proofload_sh.Machine.{two63, add64, sub64, add64-pos, sub64-pos}
use proofload_sh.Kafka.Analysis.{Range, widen, key_tally}

abbrev pub occurs : ℕ → List ℕ → Bool
occurs k [] = false
occurs k (n ∷ ns) = eqb n k || occurs k ns

-- The smallest and the largest of some numbers and a first one.
abbrev pub lowest : ℕ → List ℕ → ℕ
lowest lo [] = lo
lowest lo (n ∷ ns) = lowest (if ltb n lo then n else lo) ns

abbrev pub highest : ℕ → List ℕ → ℕ
highest hi [] = hi
highest hi (n ∷ ns) = highest (if ltb hi n then n else hi) ns

marks : List ℕ → Dict ℤ Bool → Dict ℤ Bool
marks [] m = m
marks (n ∷ ns) m = marks ns (insert (pos n) true m)

widen-marks :
    (ns : List ℕ) (m : Dict ℤ Bool) (lo hi : ℕ)
    → widen (map pos ns) (record { uniq = m; smallest = pos lo; largest = pos hi })
      ≡ record { uniq = marks ns m; smallest = pos (lowest lo ns); largest = pos (highest hi ns) }
unfolding widen marks
widen-marks [] m lo hi = refl
widen-marks (n ∷ ns) m lo hi =
    let rest =
      widen-marks ns (insert (pos n) true m) (if ltb n lo then n else lo)
        (if ltb hi n then n else hi) in
    ground (arith, rest)

lowest_bounds : (lo : ℕ) (ns : List ℕ) → (lowest lo ns ≤ lo) × All (λ n. lowest lo ns ≤ n) ns
lowest_bounds lo [] = (omega arith, tt)
lowest_bounds lo (n ∷ ns) =
    let rest = lowest_bounds (if ltb n lo then n else lo) ns in
    (ground (arith, rest.0), (ground (arith, rest.0), rest.1))

highest_bounds : (hi : ℕ) (ns : List ℕ) → (hi ≤ highest hi ns) × All (λ n. n ≤ highest hi ns) ns
highest_bounds hi [] = (omega arith, tt)
highest_bounds hi (n ∷ ns) =
    let rest = highest_bounds (if ltb hi n then n else hi) ns in
    (ground (arith, rest.0), (ground (arith, rest.0), rest.1))

highest_least : (hi b : ℕ) (ns : List ℕ) → hi < b → All (λ n. n < b) ns → highest hi ns < b
highest_least hi b [] h a = h
highest_least hi b (n ∷ ns) h a =
    highest_least (if ltb hi n then n else hi) b ns (ground (arith, a.0)) a.1

taken-marks :
    (ns : List ℕ) (m : Dict ℤ Bool) (k : ℕ) → taken (marks ns m) k ≡ (occurs k ns || taken m k)
unfolding marks
taken-marks [] m k = refl
taken-marks (n ∷ ns) m k =
    let rest = taken-marks ns (insert (pos n) true m) k in
    ground (arith, rest, taken-insert m n k true)

marks-count :
    (ns : List ℕ) (m : Dict ℤ Bool) (b : ℕ)
    → All (λ n. n < b) ns
    → length m ≡ count (taken m) b
    → length (marks ns m) ≡ count (taken (marks ns m)) b
unfolding marks
marks-count [] m b a e = e
marks-count (n ∷ ns) m b a e =
    marks-count ns (insert (pos n) true m) b a.1 (length-insert-count m b n true a.0 e)

length-marks : (ns : List ℕ) (m : Dict ℤ Bool) → length (marks ns m) ≤ length m + length ns
unfolding marks
length-marks [] m = omega arith
length-marks (n ∷ ns) m =
    let rest = length-marks ns (insert (pos n) true m) in
    ground (arith, rest, length-insert (pos n) true m)

-- Below n, each number from `lo` on occurs or is missing.
abbrev pub missing : ℕ → List ℕ → ℕ → Bool
missing lo ns k = leb lo k && not (occurs k ns)

missing_or_occurs :
    (lo n : ℕ) (ns : List ℕ)
    → ((k : ℕ) → occurs k ns ≡ true → lo ≤ k)
    → count (missing lo ns) n + count (λ k. occurs k ns) n ≡ n - lo
unfolding count
missing_or_occurs lo zero ns h = omega arith
missing_or_occurs lo (suc n) ns h =
    let rest = missing_or_occurs lo n ns h in ground (arith, rest, h n)

occurs-le : (lo : ℕ) (ns : List ℕ) (k : ℕ) → All (λ n. lo ≤ n) ns → occurs k ns ≡ true → lo ≤ k
occurs-le lo [] k a h = cc
occurs-le lo (n ∷ ns) k a h =
    let here = a.0 in let there = occurs-le lo ns k a.1 in ground (arith, here, there)

occurs-lowest : (lo : ℕ) (ns : List ℕ) → occurs (lowest lo ns) (lo ∷ ns) ≡ true
occurs-lowest lo [] = ground arith
occurs-lowest lo (n ∷ ns) =
    let rest = occurs-lowest (if ltb n lo then n else lo) ns in ground (arith, rest)

occurs-highest : (hi : ℕ) (ns : List ℕ) → occurs (highest hi ns) (hi ∷ ns) ≡ true
occurs-highest hi [] = ground arith
occurs-highest hi (n ∷ ns) =
    let rest = occurs-highest (if ltb hi n then n else hi) ns in ground (arith, rest)

-- The least and the greatest of some numbers.
pub record IsRange (ns : List ℕ) (lo hi : ℕ) : Type 0 where
  pub low : occurs lo ns ≡ true
  pub high : occurs hi ns ≡ true
  pub above : All (λ n. lo ≤ n) ns
  pub below : All (λ n. n ≤ hi) ns

IsRange-lowest-highest : (n : ℕ) (ns : List ℕ) → IsRange (n ∷ ns) (lowest n ns) (highest n ns)
IsRange-lowest-highest n ns =
    let least = lowest_bounds n ns in
    let most = highest_bounds n ns in
    record { low = occurs-lowest n ns; high = occurs-highest n ns; above = least; below = most }

below_suc : (hi : ℕ) (ns : List ℕ) → All (λ n. n ≤ hi) ns → All (λ n. n < suc hi) ns
below_suc hi [] a = tt
below_suc hi (n ∷ ns) a = (omega (arith, a.0), below_suc hi ns a.1)

or_false : (b : Bool) → (b || false) ≡ b
or_false true = refl
or_false false = refl

-- Distinct numbers of a list, counted below its largest one.
distinct-count :
    (ns : List ℕ) (lo hi : ℕ)
    → IsRange ns lo hi
    → length (marks ns []) ≡ count (λ k. occurs k ns) (suc hi)
distinct-count ns lo hi r =
    marks-count ns [] (suc hi) (below_suc hi ns r.below) (sym (count-taken Bool (suc hi)))
    ∙ count_same (λ k. occurs k ns) (taken (marks ns [])) (suc hi)
        (λ k h. taken-marks ns [] k ∙ (unfold lookup in or_false (occurs k ns)))

-- For the sequence numbers of a key, not negative and below 2^63 - 1, as their count is: the gaps are the
-- numbers missing between the least and the greatest of them, and the repeats are the records beyond one
-- for each number that occurs.
pub key_tally-exact :
    (n : ℕ) (ns : List ℕ)
    → All (λ k. k < two63 - 1) (n ∷ ns)
    → length (n ∷ ns) < two63
    → (lo hi : ℕ) × IsRange (n ∷ ns) lo hi
      × ((key_tally (pos n) (map pos ns)).0 ≡ pos (count (missing lo (n ∷ ns)) (suc hi)))
      × ((key_tally (pos n) (map pos ns)).1
          ≡ pos (length (n ∷ ns) - count (λ k. occurs k (n ∷ ns)) (suc hi)))
unfolding key_tally
key_tally-exact n ns small few =
    let lo = lowest n ns in
    let hi = highest n ns in
    let r = IsRange-lowest-highest n ns in
    let distinct = distinct-count (n ∷ ns) lo hi r in
    let split = missing_or_occurs lo (suc hi) (n ∷ ns) (λ k. occurs-le lo (n ∷ ns) k r.above) in
    let most = highest_least n (two63 - 1) ns small.0 small.1 in
    let least = occurs-le lo (n ∷ ns) hi r.above r.high in
    let size = length-marks (n ∷ ns) [] in
    let loop = widen-marks (n ∷ ns) [] n n in
    let same : Range = record { uniq = marks (n ∷ ns) []; smallest = pos lo; largest = pos hi } in
    let ends : widen (pos n ∷ map pos ns) (record { uniq = []; smallest = pos n; largest = pos n })
        ≡ same =
      loop ∙ ground arith in
    (
      lo,
      hi,
      r,
      ap (λ (q : Range). sub64 (add64 (sub64 q.largest q.smallest) (pos 1)) (pos (length q.uniq)))
            ends
          ∙ ground (
            arith,
            distinct,
            split,
            size,
            sub64-pos hi lo,
            add64-pos (hi - lo) 1,
            sub64-pos (hi - lo + 1) (length (marks (n ∷ ns) [])),
          ),
      ap (λ (q : Range). sub64 (pos (length (pos n ∷ map pos ns))) (pos (length q.uniq))) ends
          ∙ ground (
            arith,
            length-map pos ns,
            distinct,
            size,
            sub64-pos (length (n ∷ ns)) (length (marks (n ∷ ns) [])),
          ),
    )
