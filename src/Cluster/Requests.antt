-- ===== src/Cluster/Requests.antt =====
-- Sequences of requests: the invariant holds after every one, slots stay taken, and the start time that
-- was announced stays.
use proofload_sh.Prelude.{
  ℕ, ◌≡◌, refl, subst, sym, arith, Bool, true, false, ℤ, pos, Option, some, none, List, [], ◌∷◌,
  eqb, Bool-cases, inl, inr, insert, lookup-insert, length-insert, is_some, length, int_eq, eqb_ℤ,
}
use proofload_sh.Cluster.{
  Coordinator, SubmitRequest, has_joined, enter, register, open_completion, record_submit,
  handle_join, handle_submit, joining, submitting,
}
use proofload_sh.Prelude.Count.{count, count_le, taken, length-insert-count}
use proofload_sh.Cluster.Slots.{Assigned, honored, chosen, found, full, assign-Assigned}
use proofload_sh.Cluster.Barrier.{Held, IsValid, enter-IsValid}

enter-Assigned :
    (n : ℕ) (now requested : ℤ) (c : Coordinator) {o : Option ℤ}
    → IsValid n c
    → Assigned c n requested o
    → IsValid n (enter now c o).1
unfolding enter
enter-Assigned n now requested c v (honored k e b f) = enter-IsValid n c v now k b f
enter-Assigned n now requested c v (chosen (full h)) = v
enter-Assigned n now requested c v (chosen (found k a b f h)) =
    enter-IsValid n c v now k (omega arith) f

pub register-IsValid :
    (n : ℕ) (now requested : ℤ) (c : Coordinator)
    → IsValid n c
    → IsValid n (register now requested c).1
unfolding register
register-IsValid n now requested c v =
    enter-Assigned n now requested c v (assign-Assigned c n requested v.held.slots)

-- The state with a submission stored, before the completion is tested.
abbrev stored : Coordinator → SubmitRequest → Coordinator
stored c req = record c {
  reports = insert req.report.worker_id req.report c.reports;
  histos = insert req.report.worker_id req.histogram c.histos;
}

stored-Held :
    (n : ℕ) (c : Coordinator) (req : SubmitRequest)
    → Held n c
    → has_joined c req.report.worker_id ≡ true
    → Held n (stored c req)
stored-Held n c req h t =
    let id = req.report.worker_id in
    let slot = h.ids id t in
    record {
      slots = h.slots;
      some_slots = h.some_slots;
      joined = h.joined;
      entries = h.entries;
      ids = h.ids;
      reports =
          subst
            (λ k.
              length (insert k req.report c.reports)
              ≡ count (taken (insert k req.report c.reports)) n)
            (sym slot.1) (length-insert-count c.reports n slot.0 req.report slot.2 h.reports);
      reported = λ j s.
          ground
            (arith, lookup-insert id j req.report c.reports, int_eq.beq_iff id j, h.reported j);
      histos = λ j. ground (
        arith,
        lookup-insert id j req.report c.reports,
        lookup-insert id j req.histogram c.histos,
        h.histos j,
      );
    }

open_completion-IsValid :
    (n : ℕ) (c : Coordinator)
    → Held n c
    → c.joined_all ≡ eqb (length c.joined) n
    → is_some c.start_at ≡ c.joined_all
    → (c.submitted_all ≡ true → eqb (length c.reports) n ≡ true)
    → IsValid n (open_completion c)
unfolding open_completion
open_completion-IsValid n c h b s d =
    elim (Bool-cases (eqb_ℤ (pos (length c.reports)) c.worker_count)) [
      | inl t ↦ rw t (record {
        held = record {
          slots = h.slots;
          some_slots = h.some_slots;
          joined = h.joined;
          entries = h.entries;
          ids = h.ids;
          reports = h.reports;
          reported = h.reported;
          histos = h.histos;
        };
        barrier = b;
        started = s;
        completion = ground (arith, h.slots);
      })
      | inr f ↦ rw f (record {
        held = h;
        barrier = b;
        started = s;
        completion = elim (Bool-cases c.submitted_all) [
          | inl t ↦ absurd (ground (arith, d t, h.slots))
          | inr u ↦ ground (arith, h.slots)
        ];
      })
    ]

-- A report of a worker that has reported before changes no count, so a completion stays one.
still_complete :
    (n : ℕ) (c : Coordinator) (req : SubmitRequest)
    → IsValid n c
    → has_joined c req.report.worker_id ≡ true
    → c.submitted_all ≡ true
    → eqb (length (stored c req).reports) n ≡ true
still_complete n c req v t s =
    let id = req.report.worker_id in
    ground (
      arith,
      v.completion,
      length-insert id req.report c.reports,
      (stored-Held n c req v.held t).reports,
      count_le (taken (insert id req.report c.reports)) n,
    )

pub record_submit-IsValid :
    (n : ℕ) (req : SubmitRequest) (c : Coordinator)
    → IsValid n c
    → IsValid n (record_submit req c).1
unfolding record_submit
record_submit-IsValid n req c v = elim (Bool-cases (has_joined c req.report.worker_id)) [
  | inl t ↦ rw t (
      open_completion-IsValid n (stored c req) (stored-Held n c req v.held t) v.barrier v.started
        (still_complete n c req v t))
  | inr f ↦ rw f v
]

-- A request as the server sees it: the clock for a join, whether the method is POST, and the decoded body.
pub data Request : Type 0 where
  join : (now : ℤ) → (is_post : Bool) → Option ℤ → Request
  submit : (is_post : Bool) → Option SubmitRequest → Request

unfoldable pub step : Request → Coordinator → Coordinator
step (join now is_post body) c = (handle_join now is_post body c).1
step (submit is_post body) c = (handle_submit is_post body c).1

unfoldable pub run : List Request → Coordinator → Coordinator
run [] c = c
run (r ∷ rs) c = run rs (step r c)

joining_state : (p : Option ℤ × Coordinator) → (joining p).1 ≡ p.1
joining_state (none, c) = refl
joining_state (some id, c) = refl

submitting_state : (p : Bool × Coordinator) → (submitting p).1 ≡ p.1
submitting_state (true, c) = refl
submitting_state (false, c) = refl

-- What holds after `register` and after `record_submit` holds after every request.
pub step_induction :
    (P : Coordinator → Type 0) (c : Coordinator)
    → P c
    → ((now requested : ℤ) → P (register now requested c).1)
    → ((req : SubmitRequest) → P (record_submit req c).1)
    → (r : Request) → P (step r c)
unfolding step handle_join handle_submit
step_induction P c p j s (join now false body) = p
step_induction P c p j s (join now true none) = p
step_induction P c p j s (join now true (some requested)) =
    subst P (sym (joining_state (register now requested c))) (j now requested)
step_induction P c p j s (submit false body) = p
step_induction P c p j s (submit true none) = p
step_induction P c p j s (submit true (some req)) =
    subst P (sym (submitting_state (record_submit req c))) (s req)

pub step-IsValid : (n : ℕ) (r : Request) (c : Coordinator) → IsValid n c → IsValid n (step r c)
step-IsValid n r c v =
    step_induction (IsValid n) c v (λ now requested. register-IsValid n now requested c v)
      (λ req. record_submit-IsValid n req c v) r

-- Any sequence of requests, well formed or not, keeps the coordinator well formed: the maps hold the slots
-- that are taken, only workers that joined have reported, and each barrier is open exactly when all n are
-- there, with a start time exactly when the first is open.
pub run-IsValid : (n : ℕ) (rs : List Request) (c : Coordinator) → IsValid n c → IsValid n (run rs c)
unfolding run
run-IsValid n [] c v = v
run-IsValid n (r ∷ rs) c v = run-IsValid n rs (step r c) (step-IsValid n r c v)
