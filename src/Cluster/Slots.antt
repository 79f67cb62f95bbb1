-- ===== src/Cluster/Slots.antt =====
-- The slots of the coordinator's maps.
use proofload_sh.Prelude.{
  ℕ, zero, suc, ◌+◌, ◌≤◌, ◌<◌, ◌≡◌, refl, subst, ap, sym, arith, Bool, true, false, not, ◌&&◌,
  if◌then◌else◌, ℤ, pos, negsuc, Option, some, none, eqb, Bool-cases, inl, inr, leb_ℤ, ltb_ℤ,
  int_eq,
}
use proofload_sh.Cluster.{Coordinator, has_joined, lowest_free, assign, count_of}

module _ (c : Coordinator) where
  -- The search for a free slot: the lowest one, or none when all are taken.
  pub data Lowest (i left : ℕ) : Option ℤ → Type 0 where
    full : ((j : ℕ) → i ≤ j → j < i + left → has_joined c (pos j) ≡ true) → Lowest i left none
    found :
        (k : ℕ)
        → i ≤ k
        → k < i + left
        → has_joined c (pos k) ≡ false
        → ((j : ℕ) → i ≤ j → j < k → has_joined c (pos j) ≡ true)
        → Lowest i left (some (pos k))

  Lowest-step :
      (i left : ℕ) {o : Option ℤ}
      → has_joined c (pos i) ≡ true
      → Lowest (suc i) left o
      → Lowest i (suc left) o
  Lowest-step i left t (full h) = full (λ j a b. elim (Bool-cases (eqb i j)) [
    | inl e ↦ let e' : i ≡ j = ground arith in rw (← e') t
    | inr e ↦ h j (ground arith) (omega arith)
  ])
  Lowest-step i left t (found k a b f h) = found k (omega arith) (omega arith) f (λ j a b.
      elim (Bool-cases (eqb i j)) [
        | inl e ↦ let e' : i ≡ j = ground arith in rw (← e') t
        | inr e ↦ h j (ground arith) b
      ])

  pub lowest_free-Lowest : (i left : ℕ) → Lowest i left (lowest_free c i left)
  unfolding lowest_free
  lowest_free-Lowest i zero = full (λ j a b. absurd (omega arith))
  lowest_free-Lowest i (suc left) = elim (Bool-cases (has_joined c (pos i))) [
    | inl t ↦ rw t (Lowest-step i left t (lowest_free-Lowest (suc i) left))
    | inr f ↦ rw f (found i (omega arith) (omega arith) f (λ j a b. absurd (omega arith)))
  ]

  -- The slot that a request gets: the requested one if it is a free slot, else the lowest free one; none
  -- exactly when all slots are taken.
  pub data Assigned (n : ℕ) (requested : ℤ) : Option ℤ → Type 0 where
    honored :
        (k : ℕ)
        → requested ≡ pos k
        → k < n
        → has_joined c (pos k) ≡ false
        → Assigned n requested (some (pos k))
    chosen : {o : Option ℤ} → Lowest 0 n o → Assigned n requested o

  choose :
      (n : ℕ) (requested : ℤ) (b : Bool) {o : Option ℤ}
      → (b ≡ true → (k : ℕ) × (requested ≡ pos k) × (k < n) × (has_joined c (pos k) ≡ false))
      → Lowest 0 n o
      → Assigned n requested (if b then some requested else o)
  choose n requested true h l =
      let r = h refl in
      subst (λ id. Assigned n requested (some id)) (sym r.1) (honored r.0 r.1 r.2 r.3)
  choose n requested false h l = chosen l

  free_slot :
      (n : ℕ) (requested slots : ℤ)
      → slots ≡ pos n
      → (leb_ℤ (pos 0) requested && ltb_ℤ requested slots && not (has_joined c requested)) ≡ true
      → (k : ℕ) × (requested ≡ pos k) × (k < n) × (has_joined c (pos k) ≡ false)
  free_slot n (pos r) slots e t = (r, refl, ground arith, ground arith)
  free_slot n (negsuc r) slots e t = absurd (ground arith)

  pub assign-Assigned :
      (n : ℕ) (requested : ℤ) → c.worker_count ≡ pos n → Assigned n requested (assign c requested)
  unfolding assign
  assign-Assigned n requested e =
      choose n requested _ (free_slot n requested c.worker_count e)
        (subst (λ m. Lowest 0 n (lowest_free c 0 m)) (sym (ap count_of e)) (lowest_free-Lowest 0 n))
