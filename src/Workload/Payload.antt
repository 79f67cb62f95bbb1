-- ===== src/Workload/Payload.antt =====
-- Payloads are exactly as long as asked for, and a shorter payload of a key is a prefix of a longer one.
use proofload_sh.Prelude.{
  ℕ, zero, suc, ◌-◌, ◌≤◌, ◌≡◌, refl, ap, arith, true, false, ℤ, pos, List, [], ◌∷◌, ◌++◌, length,
  length-append, length-take, take, ltb, leb, leb_ℤ, Bool-cases, inl, inr,
}
use proofload_sh.Workload.{le_bytes, fill, value}

length-le_bytes : (k u : ℕ) → length (le_bytes k u) ≡ k
unfolding le_bytes
length-le_bytes zero u = refl
length-le_bytes (suc k) u = ap suc (length-le_bytes k _)

length-fill :
    (stream : ℕ → ℕ) (fuel i size : ℕ) → size ≤ fuel → length (fill stream fuel i size) ≡ size
unfolding fill
length-fill stream zero i size h = omega arith
length-fill stream (suc fuel) i size h = ground (
  arith,
  length-append (le_bytes 8 (stream i)) (fill stream fuel (suc i) (size - 8)),
  length-le_bytes 8 (stream i),
  length-take size (le_bytes 8 (stream i)),
  length-fill stream fuel (suc i) (size - 8),
)

take-append_le {ℓ} :
    {A : Type ℓ} (n : ℕ) (xs ys : List A) → n ≤ length xs → take n (xs ++ ys) ≡ take n xs
take-append_le zero xs ys h = refl
take-append_le (suc n) [] ys h = absurd (omega arith)
take-append_le (suc n) (x ∷ xs) ys h = ap (◌∷◌ x) (take-append_le n xs ys (omega arith))

take-append_ge {ℓ} :
    {A : Type ℓ} (n : ℕ) (xs ys : List A)
    → length xs ≤ n
    → take n (xs ++ ys) ≡ xs ++ take (n - length xs) ys
take-append_ge n [] ys h = let e : n - 0 ≡ n = omega arith in rw e refl
take-append_ge zero (x ∷ xs) ys h = absurd (omega arith)
take-append_ge (suc n) (x ∷ xs) ys h =
    let e : suc n - suc (length xs) ≡ n - length xs = omega arith in
    rw e (ap (◌∷◌ x) (take-append_ge n xs ys (omega arith)))

take-take {ℓ} : {A : Type ℓ} (n m : ℕ) (xs : List A) → n ≤ m → take n (take m xs) ≡ take n xs
take-take zero m xs h = refl
take-take (suc n) zero xs h = absurd (omega arith)
take-take (suc n) (suc m) [] h = refl
take-take (suc n) (suc m) (x ∷ xs) h = ap (◌∷◌ x) (take-take n m xs (omega arith))

-- Cutting a longer payload gives the shorter one.
take-fill :
    (stream : ℕ → ℕ) (f g i n m : ℕ)
    → n ≤ f
    → m ≤ g
    → n ≤ m
    → take n (fill stream g i m) ≡ fill stream f i n
unfolding fill
take-fill stream zero g i n m a b h = let e : n ≡ 0 = omega arith in rw e refl
take-fill stream (suc f) zero i n m a b h = let e : n ≡ 0 = omega arith in rw e refl
take-fill stream (suc f) (suc g) i n m a b h =
    let word = le_bytes 8 (stream i) in
    let rest = fill stream g (suc i) (m - 8) in
    let size = length-le_bytes 8 (stream i) in
    elim (Bool-cases (leb 8 n)) [
      | inl whole ↦
          let whole' : leb 8 m ≡ true = ground arith in
          rw (whole, whole', take-append_ge n word rest (ground arith), size)
            (ap (◌++◌ word) (
              take-fill stream f g (suc i) (n - 8) (m - 8) (omega arith) (omega arith)
                (omega arith)))
      | inr cut ↦ elim (Bool-cases (ltb 0 n)) [
        | inr none_left ↦ let e : n ≡ 0 = ground arith in rw e refl
        | inl part ↦ elim (Bool-cases (leb 8 m)) [
          | inl whole ↦ rw (cut, part, whole) (take-append_le n word rest (ground arith))
          | inr cut' ↦
              let part' : ltb 0 m ≡ true = ground arith in
              rw (cut, part, cut', part') (take-take n m word h)
        ]
      ]
    ]

value-fill :
    (stream : ℤ → ℕ → ℕ) (key : ℤ) (m : ℕ) → value stream key (pos m) ≡ fill (stream key) m 0 m
unfolding value
value-fill stream key zero = unfold fill in refl
value-fill stream key (suc m) =
    let more : leb_ℤ (pos (suc m)) (pos 0) ≡ false = ground arith in rw more refl

-- For n ≤ m, a payload has exactly the size m that is asked for; and the first n bytes of the payload of size m are
-- the payload of size n, so that the bytes of a key depend on their position only.
pub value-prefix :
    (stream : ℤ → ℕ → ℕ) (key : ℤ) (n m : ℕ)
    → n ≤ m
    → (length (value stream key (pos m)) ≡ m)
      × (take n (value stream key (pos m)) ≡ value stream key (pos n))
value-prefix stream key n m h =
    rw (value-fill stream key m, value-fill stream key n)
      (
        length-fill (stream key) m 0 m (omega arith),
        take-fill (stream key) n m 0 n m (omega arith) (omega arith) h,
      )
