-- ===== src/Workload/Accepted.antt =====
-- What a factory that `New` returns satisfies.
use proofload_sh.Prelude.{
  ◌≡◌, refl, ◌∙◌, ap, arith, Bool, true, false, List, ℤ, pos, ◌≤ℤ◌, leb_ℤ, ltb_ℤ, ◌||◌,
  if◌then◌else◌,
}
use proofload_sh.Workload.{
  Workload, Factory, Slice, Result, Error, ok, err, new, factory_of, partition, cumulate, bind-ok,
  is_empty,
}

pub record IsAccepted (w : Workload) (worker_id worker_count : ℤ) (f : Factory) : Type 0 where
  pub workload : f.workload ≡ w
  pub weights : cumulate w.operations (pos 0) ≡ ok (f.cum, f.total)
  pub slice :
      partition w worker_id worker_count
      ≡ record { stride = f.stride; base = f.base; keys = f.local_space }
  pub owns : pos 1 ≤ℤ f.local_space
  pub id_nonneg : pos 0 ≤ℤ worker_id
  pub id_below : leb_ℤ worker_count worker_id ≡ false
  pub has_keys : pos 1 ≤ℤ w.key_space
  pub has_operations : is_empty w.operations ≡ false

-- What is not refused by a guard.
pub else_ok :
    {A : Type 0} (b : Bool) (e : Error) {r : Result A} {a : A}
    → (if b then err e else r) ≡ ok a
    → (b ≡ false) × (r ≡ ok a)
else_ok true e h = cc
else_ok false e h = (refl, h)

factory_of-ok :
    (w : Workload) (id : ℤ) (s : Slice) (c : List ℤ × ℤ) {f : Factory}
    → factory_of w id s c ≡ ok f
    → (ltb_ℤ s.keys (pos 1) ≡ false)
      × (f.workload ≡ w)
      × (c ≡ (f.cum, f.total))
      × (s ≡ record { stride = f.stride; base = f.base; keys = f.local_space })
unfolding factory_of
factory_of-ok w id s c h =
    let g = else_ok (ltb_ℤ s.keys (pos 1)) _ h in (g.0, ground arith, ground arith, ground arith)

pub new-IsAccepted :
    (w : Workload) (worker_id worker_count : ℤ) {f : Factory}
    → new w worker_id worker_count ≡ ok f
    → IsAccepted w worker_id worker_count f
unfolding new
new-IsAccepted w id n h =
    let a = else_ok (is_empty w.operations) _ h in
    let b = else_ok (ltb_ℤ n (pos 1)) _ a.1 in
    let c = else_ok (ltb_ℤ id (pos 0) || leb_ℤ n id) _ b.1 in
    let d = else_ok (ltb_ℤ w.key_space (pos 1)) _ c.1 in
    let e = bind-ok (cumulate w.operations (pos 0)) _ d.1 in
    let g = factory_of-ok w id (partition w id n) e.0 e.2 in
    record {
      workload = g.1;
      weights = e.1 ∙ ap ok g.2;
      slice = g.3;
      owns = ground arith;
      id_nonneg = ground arith;
      id_below = ground arith;
      has_keys = ground arith;
      has_operations = a.0;
    }
