-- ===== src/Nemesis/Order.antt =====
-- The plan is ordered by time and loses no action.
use proofload_sh.Prelude.{
  ℕ, ◌≡◌, refl, ap, ◌∙◌, arith, Bool, true, false, List, [], ◌∷◌, ℤ, ltb_ℤ, inl, inr, some,
  Option-cases, pos, not, length, sym, subst, leb_ℤ,
}
use proofload_sh.Prelude.Sort.{
  Sorted, sort_stable-Sorted, sort_stable, tally, tally-sort_stable, length-sort_stable,
}
use proofload_sh.Nemesis.{
  Node, FaultSpec, Occurrence, Action, earlier_occurrence, earlier_action, all_occurrences,
  actions_of, plan, pick,
}

-- No action stands before one that is due earlier.
abbrev pub InOrder : List Action → Type 0
InOrder = Sorted (λ (a b : Action). leb_ℤ a.time b.time ≡ true)

earlier_le : (a b : Action) → earlier_action a b ≡ true → leb_ℤ a.time b.time ≡ true
unfolding earlier_action
earlier_le a b h = ground arith

later_le : (a b : Action) → earlier_action a b ≡ false → leb_ℤ b.time a.time ≡ true
unfolding earlier_action
later_le a b h = ground arith

sort_stable-InOrder : (xs : List Action) → InOrder (sort_stable earlier_action xs)
sort_stable-InOrder =
    sort_stable-Sorted earlier_action (λ (a b : Action). leb_ℤ a.time b.time ≡ true)
      (λ a b c h k. ground (arith, h, k)) earlier_le later_le

abbrev pub is_injection : Action → Bool
is_injection a = a.injects

abbrev pub is_heal : Action → Bool
is_heal a = not a.injects

abbrev pub ends : Occurrence → Bool
ends o = ltb_ℤ (pos 0) o.spec.duration

actions_of-tally :
    (nodes : List Node) (os : List Occurrence) (state : ℕ)
    → (tally is_injection (actions_of nodes os state) ≡ length os)
      × (tally is_heal (actions_of nodes os state) ≡ tally ends os)
unfolding actions_of
actions_of-tally nodes [] state = (refl, refl)
actions_of-tally nodes (o ∷ os) state =
    let rest = actions_of-tally nodes os (pick nodes o.spec.fault state).1 in
    (ground (arith, rest.0), ground (arith, rest.1))

-- The actions of a plan are in the order of their times, with one injection for each occurrence of a spec
-- and one heal for each occurrence whose spec has a positive duration.
pub plan-InOrder :
    (fuel seed : ℕ) (nodes : List Node) (specs : List FaultSpec) (window : ℤ) (acts : List Action)
    → plan fuel nodes seed specs window ≡ some acts
    → InOrder acts
      × (os : List Occurrence) × (all_occurrences fuel specs 0 window ≡ some os)
      × (tally is_injection acts ≡ length os)
      × (tally is_heal acts ≡ tally ends os)
unfolding plan
plan-InOrder fuel seed nodes specs window acts h =
    elim (Option-cases (all_occurrences fuel specs 0 window)) [
      | inl e ↦ ground (arith, e)
      | inr (os, e) ↦
          let sorted = sort_stable earlier_occurrence os in
          let as_planned : sort_stable earlier_action (actions_of nodes sorted seed) ≡ acts =
            ground (arith, e) in
          let made = actions_of-tally nodes sorted seed in
          let actions = actions_of nodes sorted seed in
          (
            subst InOrder as_planned (sort_stable-InOrder actions),
            os,
            e,
            ap (tally is_injection) (sym as_planned)
                ∙ tally-sort_stable is_injection earlier_action actions
                ∙ made.0
                ∙ length-sort_stable earlier_occurrence os,
            ap (tally is_heal) (sym as_planned)
                ∙ tally-sort_stable is_heal earlier_action actions
                ∙ made.1
                ∙ tally-sort_stable ends earlier_occurrence os,
          )
    ]
