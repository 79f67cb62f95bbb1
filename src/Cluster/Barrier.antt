-- ===== src/Cluster/Barrier.antt =====
-- The invariant of the coordinator, kept by every request, and the start barrier.
use proofload_sh.Prelude.{
  ℕ, ◌<◌, ◌≡◌, refl, sym, arith, Bool, true, false, not, ◌&&◌, if◌then◌else◌, ℤ, pos, ◌+ℤ◌, Option,
  some, eqb, Bool-cases, inl, inr, lookup, insert, lookup-insert, is_some, length, int_eq, eqb_ℤ,
  ◌==◌,
}
use proofload_sh.Cluster.{
  Coordinator, RunSpec, WorkerReport, new_coordinator, has_joined, open_barrier, start_lead_of,
}
use proofload_sh.Prelude.Count.{count, count-taken, count_full, taken, length-insert-count}

-- n workers, with n at least 1. The maps have an entry for each taken slot and for nothing else, and only
-- workers that joined have reported.
pub record Held (n : ℕ) (c : Coordinator) : Type 0 where
  pub slots : c.worker_count ≡ pos n
  pub some_slots : 0 < n
  pub joined : length c.joined ≡ count (taken c.joined) n
  pub entries : (k : ℤ) → is_some (lookup k c.joined) ≡ has_joined c k
  pub ids : (k : ℤ) → has_joined c k ≡ true → (i : ℕ) × (k ≡ pos i) × (i < n)
  pub reports : length c.reports ≡ count (taken c.reports) n
  pub reported : (k : ℤ) → is_some (lookup k c.reports) ≡ true → has_joined c k ≡ true
  pub histos : (k : ℤ) → is_some (lookup k c.histos) ≡ is_some (lookup k c.reports)

-- Moreover the two barriers are open exactly when all are there, and the start time is set exactly when
-- the first is open.
pub record IsValid (n : ℕ) (c : Coordinator) : Type 0 where
  pub held : Held n c
  pub barrier : c.joined_all ≡ eqb (length c.joined) n
  pub started : is_some c.start_at ≡ c.joined_all
  pub completion : c.submitted_all ≡ eqb (length c.reports) n

pub new_coordinator-IsValid :
    (spec : RunSpec) (n : ℕ) → 0 < n → IsValid n (new_coordinator spec (pos n))
unfolding new_coordinator lookup
new_coordinator-IsValid spec n p = record {
  held = record {
    slots = refl;
    some_slots = p;
    joined = sym (count-taken Bool n);
    entries = λ k. refl;
    ids = λ k h. cc;
    reports = sym (count-taken WorkerReport n);
    reported = λ k h. cc;
    histos = λ k. refl;
  };
  barrier = ground arith;
  started = refl;
  completion = ground arith;
}

module _ (n : ℕ) (c : Coordinator) (h : Held n c) where
  -- The state after slot k is taken, before the barrier is tested.
  abbrev entered : ℕ → Coordinator
  entered k = record c { joined = insert (pos k) true c.joined }

  has_joined-entered :
      (k : ℕ) (j : ℤ) → has_joined (entered k) j ≡ (if pos k == j then true else has_joined c j)
  has_joined-entered k j = ground (arith, lookup-insert (pos k) j true c.joined)

  entered-Held : (k : ℕ) → k < n → Held n (entered k)
  entered-Held k b = record {
    slots = h.slots;
    some_slots = h.some_slots;
    joined = length-insert-count c.joined n k true b h.joined;
    entries = λ j. ground (arith, lookup-insert (pos k) j true c.joined, h.entries j);
    ids = λ j t. elim (Bool-cases (pos k == j)) [
      | inl e ↦ (k, sym ((int_eq.beq_iff (pos k) j).0 e), b)
      | inr e ↦ h.ids j (ground (arith, has_joined-entered k j))
    ];
    reports = h.reports;
    reported = λ j t. ground (arith, has_joined-entered k j, h.reported j t);
    histos = h.histos;
  }

  abbrev opened : Option ℤ → Bool → Coordinator
  opened s b = record c { start_at = s; joined_all = b }

  opened-Held : (s : Option ℤ) (b : Bool) → Held n (opened s b)
  opened-Held s b = record {
    slots = h.slots;
    some_slots = h.some_slots;
    joined = h.joined;
    entries = h.entries;
    ids = h.ids;
    reports = h.reports;
    reported = h.reported;
    histos = h.histos;
  }

-- Testing the barrier after one more entry.
open_barrier-IsValid :
    (n : ℕ) (now : ℤ) (c : Coordinator)
    → Held n c
    → (c.joined_all ≡ true → eqb (length c.joined) n ≡ true)
    → is_some c.start_at ≡ c.joined_all
    → c.submitted_all ≡ eqb (length c.reports) n
    → IsValid n (open_barrier now c)
unfolding open_barrier
open_barrier-IsValid n now c h all s d =
    elim (Bool-cases (eqb_ℤ (pos (length c.joined)) c.worker_count && not c.joined_all)) [
      | inl t ↦ rw t (record {
        held = opened-Held n c h (some (now +ℤ start_lead_of c)) true;
        barrier = ground (arith, h.slots);
        started = refl;
        completion = d;
      })
      | inr f ↦
          rw f (record { held = h; barrier = ground (arith, h.slots); started = s; completion = d })
    ]

-- Once every worker has joined, no slot is free: an entry at a free slot finds the barrier closed.
module _ (n : ℕ) (c : Coordinator) (v : IsValid n c) where
  pub closed_before : (k : ℕ) → k < n → has_joined c (pos k) ≡ false → c.joined_all ≡ false
  closed_before k b free = elim (Bool-cases c.joined_all) [
    | inr f ↦ f
    | inl t ↦
        let full : count (taken c.joined) n ≡ n = ground (arith, v.held.joined, v.barrier) in
        absurd (ground (arith, count_full (taken c.joined) n k full b, v.held.entries (pos k)))
  ]

  pub enter-IsValid :
      (now : ℤ) (k : ℕ)
      → k < n
      → has_joined c (pos k) ≡ false
      → IsValid n (open_barrier now (record c { joined = insert (pos k) true c.joined }))
  enter-IsValid now k b free =
      open_barrier-IsValid n now (entered n c v.held k) (entered-Held n c v.held k b)
        (λ t. ground (arith, closed_before k b free)) v.started v.completion
