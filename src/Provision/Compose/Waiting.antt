-- ===== src/Provision/Compose/Waiting.antt =====
-- core/provision/compose/docker.go: the wait for a cluster to become healthy. A poll is what docker answers at
-- one time, with whether the deadline has passed and whether the context is done afterwards.
use proofload_sh.Prelude.{
  ℕ, zero, suc, ◌<◌, ◌≡◌, ◌≢◌, refl, sym, ◌∙◌, subst, some_injective, arith, ◌↔◌, ◌⊎◌, ap, inl, inr,
  Bool, true, false, ◌||◌, Bool-cases, Option, none, some, List, [], ◌∷◌, if◌then◌else◌, get_elem?,
  All, ◌==◌, codes,
}
use proofload_sh.Provision.{Text, text_eq}
use proofload_sh.Provision.Compose.{ServiceModel, ProjectModel}

-- `containerReady`, from what `docker inspect` answers: an error is not ready.
unfoldable pub container_ready : Option Text → Bool
container_ready none = false
container_ready (some out) = out == codes "healthy" || out == codes "running"

-- `unhealthy`
unfoldable pub unhealthy : (Text → Option Text) → List ServiceModel → List Text
unfolding container_ready
unhealthy inspect [] = []
unhealthy inspect (s ∷ ss) =
    let rest = unhealthy inspect ss in
    if container_ready (inspect s.container_name) then rest else s.container_name ∷ rest

pub record HealthPoll : Type 0 where
  pub inspect : Text → Option Text
  pub late : Bool
  pub cancelled : Bool

-- How a wait ends: `waiting` is a wait that goes on after the polls.
pub data Wait : Type 0 where
  healthy timed_out ended waiting : Wait

abbrev none_pending : List Text → Bool
none_pending [] = true
none_pending (t ∷ ts) = false

-- `waitHealthy`
unfoldable pub wait_healthy : ProjectModel → List HealthPoll → Wait
unfolding unhealthy
wait_healthy m [] = waiting
wait_healthy m (p ∷ ps) =
    let rest = wait_healthy m ps in
    if none_pending (unhealthy p.inspect m.services)
    then healthy
    else if p.late
    then timed_out
    else if p.cancelled
    then ended
    else rest

-- What docker answers for a container that is healthy, or runs without a health check.
abbrev pub IsReady : Option Text → Type 0
IsReady o = (o ≡ some (codes "healthy")) ⊎ (o ≡ some (codes "running"))

container_ready-IsReady : (o : Option Text) → (container_ready o ≡ true) ↔ IsReady o
unfolding container_ready
container_ready-IsReady none = (λ h. cc, λ r. elim r [ inl e ↦ cc | inr e ↦ cc ])
container_ready-IsReady (some out) =
    let good = text_eq.beq_iff out (codes "healthy") in
    let well = text_eq.beq_iff out (codes "running") in
    (
      λ h. elim (Bool-cases (out == codes "healthy")) [
        | inl e ↦ inl (ap some (good.0 e))
        | inr e ↦ inr (ap some (well.0 (ground (arith, h, e))))
      ],
      λ r. elim r [
        | inl e ↦ let t = good.1 (some_injective out (codes "healthy") e) in ground (arith, t)
        | inr e ↦ let t = well.1 (some_injective out (codes "running") e) in ground (arith, t)
      ],
    )

-- Every container is ready at a poll.
abbrev pub AllReady : ProjectModel → HealthPoll → Type 0
AllReady m p = All (λ (s : ServiceModel). IsReady (p.inspect s.container_name)) m.services

unhealthy-AllReady :
    (inspect : Text → Option Text) (ss : List ServiceModel)
    → (none_pending (unhealthy inspect ss) ≡ true)
      ↔ All (λ (s : ServiceModel). IsReady (inspect s.container_name)) ss
unfolding unhealthy
unhealthy-AllReady inspect [] = (λ h. tt, λ h. refl)
unhealthy-AllReady inspect (s ∷ ss) =
    let rest = unhealthy-AllReady inspect ss in
    let here = container_ready-IsReady (inspect s.container_name) in
    elim (Bool-cases (container_ready (inspect s.container_name))) [
      | inl e ↦ (λ h. (here.0 e, rest.0 (ground (arith, h, e))), λ h. ground (arith, e, rest.1 h.1))
      | inr e ↦ (λ h. absurd (ground (arith, e, h)), λ h. absurd (ground (arith, e, here.1 h.0)))
    ]

-- A poll finds every container ready, and no poll before it gives the wait up.
pub record InTime (m : ProjectModel) (polls : List HealthPoll) : Type 0 where
  pub index : ℕ
  pub poll : HealthPoll
  pub found : get_elem? polls index ≡ some poll
  pub ready : AllReady m poll
  pub before :
      (j : ℕ) (q : HealthPoll)
      → j < index
      → get_elem? polls j ≡ some q
      → (q.late ≡ false) × (q.cancelled ≡ false)

InTime-cons :
    (m : ProjectModel) (p : HealthPoll) (ps : List HealthPoll)
    → p.late ≡ false
    → p.cancelled ≡ false
    → InTime m ps
    → InTime m (p ∷ ps)
InTime-cons m p ps l c t = record {
  index = suc t.index;
  poll = t.poll;
  found = t.found;
  ready = t.ready;
  before = earlier;
}
  where
    earlier :
        (j : ℕ) (r : HealthPoll)
        → j < suc t.index
        → get_elem? (p ∷ ps) j ≡ some r
        → (r.late ≡ false) × (r.cancelled ≡ false)
    earlier zero r h e =
        subst (λ q. (q.late ≡ false) × (q.cancelled ≡ false)) (some_injective p r e) (l, c)
    earlier (suc j) r h e = t.before j r (omega (arith, h)) e

InTime-here :
    (m : ProjectModel) (p : HealthPoll) (ps : List HealthPoll) → AllReady m p → InTime m (p ∷ ps)
InTime-here m p ps h = record {
  index = 0;
  poll = p;
  found = refl;
  ready = h;
  before = λ j q less e. absurd (omega (arith, less));
}

-- A later poll of a wait that its first poll does not end.
InTime-tail :
    (m : ProjectModel) (p : HealthPoll) (ps : List HealthPoll)
    → ¬ AllReady m p
    → InTime m (p ∷ ps)
    → (p.late ≡ false) × (p.cancelled ≡ false) × InTime m ps
InTime-tail m p ps unready t = at t.index t.poll t.found t.ready t.before
  where
    at :
        (k : ℕ) (q : HealthPoll)
        → get_elem? (p ∷ ps) k ≡ some q
        → AllReady m q
        → ((j : ℕ) (r : HealthPoll)
            → j < k
            → get_elem? (p ∷ ps) j ≡ some r
            → (r.late ≡ false) × (r.cancelled ≡ false))
        → (p.late ≡ false) × (p.cancelled ≡ false) × InTime m ps
    at zero q found ready before =
        absurd (unready (subst (AllReady m) (sym (some_injective p q found)) ready))
    at (suc k) q found ready before = (
      (before 0 p (omega arith) refl).0,
      (before 0 p (omega arith) refl).1,
      record {
        index = k;
        poll = q;
        found = found;
        ready = ready;
        before = λ j r less e. before (suc j) r (omega (arith, less)) e;
      },
    )

unready_step :
    (m : ProjectModel) (p : HealthPoll) (ps : List HealthPoll)
    → none_pending (unhealthy p.inspect m.services) ≡ false
    → wait_healthy m (p ∷ ps)
      ≡ (if p.late then timed_out else if p.cancelled then ended else wait_healthy m ps)
unfolding wait_healthy
unready_step m p ps e = ground (arith, e)

going_on :
    (late cancelled : Bool) (w : Wait)
    → (if late then timed_out else if cancelled then ended else w) ≡ healthy
    → (late ≡ false) × (cancelled ≡ false) × (w ≡ healthy)
going_on true cancelled w h = cc
going_on false true w h = cc
going_on false false w h = (refl, refl, h)

healthy_iff :
    (m : ProjectModel) (polls : List HealthPoll) → (wait_healthy m polls ≡ healthy) ↔ InTime m polls
unfolding wait_healthy
healthy_iff m [] = (λ h. cc, λ t. absurd (no_poll t.index t.poll t.found))
  where
    no_poll : (k : ℕ) (q : HealthPoll) → get_elem? [] k ≡ some q → ⊥
    no_poll k q e = cc
healthy_iff m (p ∷ ps) =
    let rest = healthy_iff m ps in
    let ready = unhealthy-AllReady p.inspect m.services in
    elim (Bool-cases (none_pending (unhealthy p.inspect m.services))) [
      | inl e ↦ (λ h. InTime-here m p ps (ready.0 e), λ t. ground (arith, e))
      | inr e ↦
          let unready : ¬ AllReady m p = λ a. ground (arith, e, ready.1 a) in
          (
            λ h.
                let on =
                  going_on p.late p.cancelled (wait_healthy m ps)
                    (sym (unready_step m p ps e) ∙ h) in
                InTime-cons m p ps on.0 on.1 (rest.0 on.2),
            λ t.
                let later = InTime-tail m p ps unready t in
                unready_step m p ps e ∙ ground (arith, later.0, later.1, rest.1 later.2),
          )
    ]

-- A poll that finds the deadline passed ends the wait.
late-waiting :
    (m : ProjectModel) (polls : List HealthPoll) (k : ℕ) (p : HealthPoll)
    → get_elem? polls k ≡ some p
    → p.late ≡ true
    → wait_healthy m polls ≢ waiting
unfolding wait_healthy
late-waiting m [] k p found late = cc
late-waiting m (q ∷ ps) zero p found late =
    let here : q.late ≡ true = subst (λ r. r.late ≡ true) (sym (some_injective q p found)) late in
    λ w. ground (arith, w, here)
late-waiting m (q ∷ ps) (suc k) p found late =
    let rest = late-waiting m ps k p found late in λ w. ground (arith, w, rest)

-- The wait succeeds exactly when some poll finds every container healthy, or running where it has no
-- health check, and no poll before it finds the deadline passed or the context done; and it does not go
-- on past a poll that finds the deadline passed.
pub wait_healthy-healthy :
    (m : ProjectModel) (polls : List HealthPoll)
    → ((wait_healthy m polls ≡ healthy) ↔ InTime m polls)
      × ((k : ℕ) (p : HealthPoll)
          → get_elem? polls k ≡ some p
          → p.late ≡ true
          → wait_healthy m polls ≢ waiting)
wait_healthy-healthy m polls = (healthy_iff m polls, late-waiting m polls)
