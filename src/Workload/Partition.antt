-- ===== src/Workload/Partition.antt =====
-- The workers' slices of the key space: every key has exactly one owner and one index.
use native.Mathlib.Nat.{
  div-add-mod', le-div_iff_mul-le, mul-add-div_right, div-eq_of_lt, mul-add-mod_self_right,
  mod-eq_of_lt,
}
use proofload_sh.Prelude.{
  ℕ, suc, Bool-cases, inl, inr, ◌+◌, ◌-◌, ◌*◌, ◌/◌, ◌%◌, ◌≤◌, ◌<◌, ◌≡◌, ◌↔◌, ◌∙◌, ap, arith, false,
  pos, leb, if◌then◌else◌,
}
use proofload_sh.Machine.{two63, add64-pos, sub64-pos, div64-pos}
use proofload_sh.Workload.{Workload, partition, param_bool}

-- The number of keys k < keys with k % workers ≡ w.
abbrev pub owned : ℕ → ℕ → ℕ → ℕ
owned keys w workers = if leb keys w then 0 else (keys - w + workers - 1) / workers

module _ (wl : Workload) (keys w workers : ℕ) (space : wl.key_space ≡ pos keys)
    (split : param_bool wl.params "shared_keys" ≡ false) (in_range : w < workers)
    (fits : keys + workers < two63) where
  pub partition-owned :
      partition wl (pos w) (pos workers)
      ≡ record { stride = pos workers; base = pos w; keys = pos (owned keys w workers) }
  unfolding partition
  partition-owned =
      rw (split, space)
        (ground (
          arith,
          sub64-pos keys w,
          add64-pos (keys - w) workers,
          sub64-pos (keys - w + workers) 1,
          div64-pos (keys - w + workers - 1) workers,
        ))

module _ (keys w workers : ℕ) (in_range : w < workers) where
  -- Index i of worker w is the key i * workers + w, which lies in the key space and is w modulo the
  -- number of workers.
  pub owned_within : (i : ℕ) → i < owned keys w workers → i * workers + w < keys
  owned_within i h = elim (Bool-cases (leb keys w)) [
    | inl all ↦ absurd (ground arith)
    | inr part ↦
        let below : suc i ≤ (keys - w + workers - 1) / workers = ground arith in
        let scaled : suc i * workers ≤ keys - w + workers - 1 =
          (le-div_iff_mul-le {k = workers} (omega arith)).0 below in
        ground arith
  ]

  pub key_mod : (i : ℕ) → (i * workers + w) % workers ≡ w
  key_mod i = mul-add-mod_self_right i workers w ∙ mod-eq_of_lt in_range

  index_of_key : (i : ℕ) → (i * workers + w) / workers ≡ i
  index_of_key i = mul-add-div_right (omega arith) i w ∙ omega (arith, div-eq_of_lt in_range)

  pub owner_index : (k : ℕ) → k < keys → k % workers ≡ w → k / workers < owned keys w workers
  owner_index k h e =
      let whole : k / workers * workers + w ≡ k = omega (arith, div-add-mod' k workers, e) in
      let below : suc (k / workers) ≤ (keys - w + workers - 1) / workers =
        (le-div_iff_mul-le {k = workers} (omega arith)).1 (omega arith) in
      ground arith

-- The partition of a key space that is not shared, for worker w below the workers' number, with the keys
-- and the workers together below 2^63: the slice of worker w has the workers' number as its
-- stride, w as its base and `owned keys w workers` keys; and a key k is at an index i of that slice
-- exactly when k lies in the key space, is w modulo the workers' number, and i is k / workers. So each
-- key has one owner and one index.
pub partition_exact :
    (wl : Workload) (keys w workers i k : ℕ)
    → wl.key_space ≡ pos keys
    → param_bool wl.params "shared_keys" ≡ false
    → w < workers
    → keys + workers < two63
    → (partition wl (pos w) (pos workers)
        ≡ record { stride = pos workers; base = pos w; keys = pos (owned keys w workers) })
      × (((i < owned keys w workers) × (k ≡ i * workers + w))
          ↔ ((k < keys) × (k % workers ≡ w) × (k / workers ≡ i)))
partition_exact wl keys w workers i k space split in_range fits = (
  partition-owned wl keys w workers space split in_range fits,
  (
    λ h. (
      rw (h.1) (owned_within keys w workers in_range i h.0),
      rw (h.1) (key_mod keys w workers in_range i),
      rw (h.1) (index_of_key keys w workers in_range i),
    ),
    λ h. (
      rw (← h.2) (owner_index keys w workers in_range k h.0 h.1),
      omega (arith, div-add-mod' k workers, h.1, ap (λ (t : ℕ). t * workers) h.2),
    ),
  ),
)
