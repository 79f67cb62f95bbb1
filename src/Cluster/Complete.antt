-- ===== src/Cluster/Complete.antt =====
-- What the coordinator promises: one slot for each worker, one start time for all, and a result with every
-- report in the order of the workers.
use mathlib.Core.Option.{some-injective}
use proofload_sh.Prelude.{
  lookup-insert_self, ℕ, zero, suc, ◌+◌, ◌≤◌, ◌<◌, ◌≡◌, refl, subst, ap, sym, ◌∙◌, ◌≢◌, arith, Bool,
  true, false, ℤ, pos, Option, some, none, List, [], ◌∷◌, lookup, lookup-insert, is_some, length,
  int_eq, get_elem?,
}
use proofload_sh.Cluster.{
  Coordinator, RunSpec, SubmitRequest, or_empty, collect, result, count_of, has_joined, assign,
  enter, register, open_barrier, open_completion, record_submit, handle_join, joining, poll_join,
  joined_as, status, refused,
}
use proofload_sh.Prelude.Count.{count, count_full, taken}
use proofload_sh.Cluster.Slots.{Assigned, honored, chosen, found, full, assign-Assigned}
use proofload_sh.Cluster.Barrier.{IsValid, closed_before}
use proofload_sh.Cluster.Requests.{
  Request, step, run, step_induction, run-IsValid, register-IsValid,
}

-- The later state keeps what the earlier one has announced: the specification, the slots that are taken,
-- and, once the barrier is open, the start time.
pub record Keeps (c d : Coordinator) : Type 0 where
  pub spec : d.spec ≡ c.spec
  pub slots : (k : ℤ) → has_joined c k ≡ true → has_joined d k ≡ true
  pub barrier : c.joined_all ≡ true → d.joined_all ≡ true
  pub start : c.joined_all ≡ true → d.start_at ≡ c.start_at

Keeps-refl : (c : Coordinator) → Keeps c c
Keeps-refl c = record { spec = refl; slots = λ k h. h; barrier = λ h. h; start = λ h. refl }

Keeps-trans : {c d e : Coordinator} → Keeps c d → Keeps d e → Keeps c e
Keeps-trans p q = record {
  spec = q.spec ∙ p.spec;
  slots = λ k h. q.slots k (p.slots k h);
  barrier = λ h. q.barrier (p.barrier h);
  start = λ h. q.start (p.barrier h) ∙ p.start h;
}

enter-Keeps : (now : ℤ) (o : Option ℤ) (c : Coordinator) → Keeps c (enter now c o).1
unfolding enter open_barrier
enter-Keeps now none c = Keeps-refl c
enter-Keeps now (some id) c = record {
  spec = ground arith;
  slots = λ k h. ground (arith, lookup-insert id k true c.joined);
  barrier = λ h. ground arith;
  start = λ h. ground arith;
}

register-Keeps : (now requested : ℤ) (c : Coordinator) → Keeps c (register now requested c).1
unfolding register
register-Keeps now requested c = enter-Keeps now (assign c requested) c

record_submit-Keeps : (req : SubmitRequest) (c : Coordinator) → Keeps c (record_submit req c).1
unfolding record_submit open_completion
record_submit-Keeps req c = record {
  spec = ground arith;
  slots = λ k h. ground arith;
  barrier = λ h. ground arith;
  start = λ h. ground arith;
}

run-Keeps : (rs : List Request) (c : Coordinator) → Keeps c (run rs c)
unfolding run
run-Keeps [] c = Keeps-refl c
run-Keeps (r ∷ rs) c =
    Keeps-trans
      (step_induction (Keeps c) c (Keeps-refl c) (λ now requested. register-Keeps now requested c)
        (λ req. record_submit-Keeps req c) r)
      (run-Keeps rs (step r c))

joined_as-start :
    (p : Bool) (id : ℤ) (c : Coordinator) {i : ℤ} {spec : RunSpec} {s : Option ℤ}
    → poll_join p id c ≡ some (joined_as i spec s)
    → (c.joined_all ≡ true) × (spec ≡ c.spec) × (s ≡ c.start_at)
unfolding poll_join
joined_as-start p id c h = ground arith

-- The synchronized start: in a well-formed coordinator, two joins that are answered, the second after any
-- further requests, are told the same specification and the same start time, and a start time is set.
pub same_start :
    (n : ℕ) (c : Coordinator) (rs : List Request) (p q : Bool) (id jd : ℤ) {i j : ℤ}
    {spec spec' : RunSpec} {s t : Option ℤ}
    → IsValid n c
    → poll_join p id c ≡ some (joined_as i spec s)
    → poll_join q jd (run rs c) ≡ some (joined_as j spec' t)
    → (spec ≡ spec') × (s ≡ t) × (is_some s ≡ true)
same_start n c rs p q id jd v h k =
    let a = joined_as-start p id c h in
    let b = joined_as-start q jd (run rs c) k in
    let keeps = run-Keeps rs c in
    (
      a.1 ∙ sym keeps.spec ∙ sym b.1,
      a.2 ∙ sym (keeps.start a.0) ∙ sym b.2,
      ap is_some a.2 ∙ v.started ∙ a.0,
    )

abbrev Fresh : ℕ → Coordinator → Coordinator → ℤ → Type 0
Fresh n c d id =
    (has_joined c id ≡ false) × (has_joined d id ≡ true) × ((k : ℕ) × (id ≡ pos k) × (k < n))

slot-Fresh :
    (n : ℕ) (now : ℤ) (c : Coordinator) (k : ℕ) {id : ℤ}
    → k < n
    → has_joined c (pos k) ≡ false
    → (enter now c (some (pos k))).0 ≡ some id
    → Fresh n c (enter now c (some (pos k))).1 id
unfolding enter open_barrier
slot-Fresh n now c k b f h =
    subst (Fresh n c (enter now c (some (pos k))).1) (some-injective _ _ h)
      (f, ground (arith, lookup-insert_self (pos k) true c.joined), (k, refl, b))

enter-Fresh :
    (n : ℕ) (now requested : ℤ) (c : Coordinator) {o : Option ℤ} {id : ℤ}
    → Assigned c n requested o
    → (enter now c o).0 ≡ some id
    → Fresh n c (enter now c o).1 id
enter-Fresh n now requested c (honored k e b f) h = slot-Fresh n now c k b f h
enter-Fresh n now requested c (chosen (full a)) h = unfold enter in absurd (ground arith)
enter-Fresh n now requested c (chosen (found k a b f l)) h = slot-Fresh n now c k (omega arith) f h

register-Fresh :
    (n : ℕ) (now requested : ℤ) (c : Coordinator) {id : ℤ}
    → IsValid n c
    → (register now requested c).0 ≡ some id
    → Fresh n c (register now requested c).1 id
unfolding register
register-Fresh n now requested c v h =
    enter-Fresh n now requested c (assign-Assigned c n requested v.held.slots) h

-- In a well-formed coordinator of n workers, a registration that succeeds gives a slot below n that nobody
-- had, and no later registration, after any further requests, gives the same slot again.
pub register_distinct :
    (n : ℕ) (now requested later requested' : ℤ) (c : Coordinator) (rs : List Request) {id jd : ℤ}
    → IsValid n c
    → (register now requested c).0 ≡ some id
    → (register later requested' (run rs (register now requested c).1)).0 ≡ some jd
    → ((k : ℕ) × (id ≡ pos k) × (k < n)) × (has_joined c id ≡ false) × (id ≢ jd)
register_distinct n now requested later requested' c rs {id} {jd} v h k =
    let d = run rs (register now requested c).1 in
    let a = register-Fresh n now requested c v h in
    let w = run-IsValid n rs _ (register-IsValid n now requested c v) in
    let b = register-Fresh n later requested' d w k in
    let kept = (run-Keeps rs (register now requested c).1).slots id a.1 in
    (a.2, a.0, λ e. cc (kept, b.0, ap (has_joined d) e))

enter-full :
    (n : ℕ) (now requested : ℤ) (c : Coordinator) {o : Option ℤ}
    → IsValid n c
    → c.joined_all ≡ true
    → Assigned c n requested o
    → enter now c o ≡ (none, c)
enter-full n now requested c v t (honored k e b f) =
    absurd (ground (arith, closed_before n c v k b f))
enter-full n now requested c v t (chosen (full a)) = unfold enter in refl
enter-full n now requested c v t (chosen (found k a b f l)) =
    absurd (ground (arith, closed_before n c v k (omega arith) f))

-- In a well-formed coordinator whose barrier is open, a join is refused with the status 409 and changes
-- nothing.
pub late_join_refused :
    (n : ℕ) (now requested : ℤ) (c : Coordinator)
    → IsValid n c
    → c.joined_all ≡ true
    → handle_join now true (some requested) c ≡ (refused (status 409), c)
unfolding handle_join register
late_join_refused n now requested c v t =
    ap joining (enter-full n now requested c v t (assign-Assigned c n requested v.held.slots))

reports_at :
    (c : Coordinator) (i left k m : ℕ)
    → ((j : ℕ) → i ≤ j → j < i + left → is_some (lookup (pos j) c.reports) ≡ true)
    → m ≡ i + k
    → k < left
    → (get_elem? (collect c i left).reports k ≡ lookup (pos m) c.reports)
      × (get_elem? (collect c i left).histograms k ≡ some (or_empty (lookup (pos m) c.histos)))
unfolding collect
reports_at c i zero k m all e h = absurd (omega arith)
reports_at c i (suc left) zero m all e h =
    let same : m ≡ i = omega arith in
    let there = all i (omega arith) (omega arith) in rw same (ground arith)
reports_at c i (suc left) (suc k) m all e h =
    let there = all i (omega arith) (omega arith) in
    ground (
      arith,
      there,
      reports_at c (suc i) left k m (λ j a b. all j (omega arith) (omega arith)) (omega arith)
          (omega arith),
    )

length-collect :
    (c : Coordinator) (i left : ℕ)
    → ((j : ℕ) → i ≤ j → j < i + left → is_some (lookup (pos j) c.reports) ≡ true)
    → length (collect c i left).reports ≡ left
unfolding collect
length-collect c i zero all = refl
length-collect c i (suc left) all =
    let there = all i (omega arith) (omega arith) in
    ground
      (arith, there, length-collect c (suc i) left (λ j a b. all j (omega arith) (omega arith)))

all_reported :
    (n : ℕ) (c : Coordinator)
    → IsValid n c
    → c.submitted_all ≡ true
    → (j : ℕ) → 0 ≤ j
    → j < 0 + n
    → is_some (lookup (pos j) c.reports) ≡ true
all_reported n c v t j a b =
    let full : count (taken c.reports) n ≡ n = ground (arith, v.held.reports, v.completion) in
    count_full (taken c.reports) n j full (omega arith)

-- In a well-formed coordinator of n workers whose completion barrier is open, the result has exactly n
-- reports, and for k < n the k-th is the one stored for worker k, which exists, with its histogram at the
-- same place.
pub result_complete :
    (n : ℕ) (c : Coordinator) (k : ℕ)
    → IsValid n c
    → c.submitted_all ≡ true
    → k < n
    → (length (result c).reports ≡ n)
      × (get_elem? (result c).reports k ≡ lookup (pos k) c.reports)
      × (is_some (lookup (pos k) c.reports) ≡ true)
      × (get_elem? (result c).histograms k ≡ lookup (pos k) c.histos)
unfolding result
result_complete n c k v t h =
    let all = all_reported n c v t in
    let size : count_of c.worker_count ≡ n = ap count_of v.held.slots in
    let at = reports_at c 0 n k k all (omega arith) h in
    let held = all k (omega arith) (omega arith) in
    let blob : some (or_empty (lookup (pos k) c.histos)) ≡ lookup (pos k) c.histos =
      ground (arith, held, v.held.histos (pos k)) in
    (
      subst (λ m. length (collect c 0 m).reports ≡ n) (sym size) (length-collect c 0 n all),
      subst (λ m. get_elem? (collect c 0 m).reports k ≡ lookup (pos k) c.reports) (sym size) at.0,
      held,
      subst (λ m. get_elem? (collect c 0 m).histograms k ≡ lookup (pos k) c.histos) (sym size)
          (at.1 ∙ blob),
    )
