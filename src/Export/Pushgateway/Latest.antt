-- ===== src/Export/Pushgateway/Latest.antt =====
-- What the summary of a run keeps of the time series.
use proofload_sh.Prelude.{
  ◌≡◌, refl, sym, ap, subst, ◌∙◌, arith, inl, inr, Option-cases, Bool, true, false, Option, none,
  some, List, [], ◌∷◌, map, if◌then◌else◌, keep, All, String, ◌==◌, string_eq, Dict, lookup, insert,
  lookup-insert, Distinct, sorted_entries, InOrder,
}
use proofload_sh.Prelude.Sort.{Sorted}
use proofload_sh.Prelude.Names.{
  empty-Distinct, insert-Distinct, sorted_entries-keep, sorted_entries-All, All-insert,
  sorted_keys-Sorted, sorted_entries-names,
}
use proofload_sh.Snapshots.{LatencySnapshot}
use proofload_sh.Export.Tags.{or_else}
use proofload_sh.Export.Pushgateway.{by_op, latest_per_op}

abbrev entry {ℓ} : {A : Type ℓ} → Bool → A → List A → List A
entry b s ss = elim b [ true ↦ s ∷ ss | false ↦ ss ]

module _ {F : Type 0} where
  -- The last snapshot of an operation, if there is one.
  abbrev pub last_of : String → List (LatencySnapshot F) → Option (LatencySnapshot F)
  last_of op [] = none
  last_of op (s ∷ snaps) = or_else (last_of op snaps) (if s.op_type == op then some s else none)

  by_op-Distinct :
      (snaps : List (LatencySnapshot F)) (m : Dict String (LatencySnapshot F))
      → Distinct m
      → Distinct (by_op snaps m)
  unfolding by_op
  by_op-Distinct [] m h = h
  by_op-Distinct (s ∷ snaps) m h =
      by_op-Distinct snaps (insert s.op_type s m) (insert-Distinct s.op_type s m h)

  lookup-by_op :
      (op : String) (snaps : List (LatencySnapshot F)) (m : Dict String (LatencySnapshot F))
      → lookup op (by_op snaps m) ≡ or_else (last_of op snaps) (lookup op m)
  unfolding by_op
  lookup-by_op op [] m = refl
  lookup-by_op op (s ∷ snaps) m =
      lookup-by_op op snaps (insert s.op_type s m) ∙ ground (arith, lookup-insert s.op_type op s m)

  -- An entry under the name of its operation.
  abbrev IsNamed : String × LatencySnapshot F → Type 0
  IsNamed p = p.1.op_type ≡ p.0

  by_op-All :
      (snaps : List (LatencySnapshot F)) (m : Dict String (LatencySnapshot F))
      → All IsNamed m
      → All IsNamed (by_op snaps m)
  unfolding by_op
  by_op-All [] m h = h
  by_op-All (s ∷ snaps) m h =
      by_op-All snaps (insert s.op_type s m) (All-insert IsNamed s.op_type s m refl h)

  entry-map :
      (b : Bool) (p : String × LatencySnapshot F) (ps : List (String × LatencySnapshot F))
      → entry b p.1 (map (λ p. p.1) ps) ≡ map (λ p. p.1) (entry b p ps)
  entry-map true p ps = refl
  entry-map false p ps = refl

  keep-values :
      (op : String) (ps : List (String × LatencySnapshot F))
      → All IsNamed ps
      → keep (λ (s : LatencySnapshot F). s.op_type == op) (map (λ p. p.1) ps)
        ≡ map (λ p. p.1) (keep (λ (p : String × LatencySnapshot F). p.0 == op) ps)
  keep-values op [] h = refl
  keep-values op (p ∷ ps) h =
      let rest = keep-values op ps h.1 in
      ap
        (λ i.
          entry (i == op) p.1
            (keep (λ (s : LatencySnapshot F). s.op_type == op) (map (λ p. p.1) ps)))
        h.0
      ∙ ap (entry (p.0 == op) p.1) rest
      ∙ entry-map (p.0 == op) p (keep (λ (p : String × LatencySnapshot F). p.0 == op) ps)

  values : List (String × LatencySnapshot F) → List (LatencySnapshot F)
  values ps = map (λ p. p.1) ps

  each_once :
      (zero_snapshot : LatencySnapshot F) (op : String) (snaps : List (LatencySnapshot F))
      → keep (λ s. s.op_type == op) (latest_per_op zero_snapshot snaps)
        ≡ (elim (last_of op snaps) [ none ↦ [] | some s ↦ s ∷ [] ])
  unfolding latest_per_op values lookup
  each_once zero_snapshot op snaps =
      let m = by_op snaps [] in
      let entries = sorted_entries zero_snapshot m in
      keep-values op entries (sorted_entries-All IsNamed zero_snapshot m (by_op-All snaps [] tt))
      ∙ ap values (
          sorted_entries-keep zero_snapshot op m
            (by_op-Distinct snaps [] (empty-Distinct String (LatencySnapshot F))))
      ∙ ap (λ o. values (elim o [ none ↦ [] | some s ↦ (op, s) ∷ [] ])) (lookup-by_op op snaps [])
      ∙ (elim (Option-cases (last_of op snaps)) [ inl e ↦ rw e refl | inr (s, e) ↦ rw e refl ])

  names-values :
      (ps : List (String × LatencySnapshot F))
      → All IsNamed ps
      → map (λ (s : LatencySnapshot F). s.op_type) (values ps) ≡ map (λ p. p.0) ps
  unfolding values
  names-values [] h = refl
  names-values (p ∷ ps) h =
      ap (λ n. n ∷ map (λ (s : LatencySnapshot F). s.op_type) (values ps)) h.0
      ∙ ap (λ l. p.0 ∷ l) (names-values ps h.1)

  -- The summary has each operation of the series once, with its last snapshot, and no other operation,
  -- in the order of the names.
  pub latest_per_op-keep :
      (zero_snapshot : LatencySnapshot F) (snaps : List (LatencySnapshot F))
      → ((op : String)
          → keep (λ s. s.op_type == op) (latest_per_op zero_snapshot snaps)
            ≡ (elim (last_of op snaps) [ none ↦ [] | some s ↦ s ∷ [] ]))
        × Sorted InOrder
            (map (λ (s : LatencySnapshot F). s.op_type) (latest_per_op zero_snapshot snaps))
  unfolding latest_per_op values
  latest_per_op-keep zero_snapshot snaps =
      let m = by_op snaps [] in
      let named = sorted_entries-All IsNamed zero_snapshot m (by_op-All snaps [] tt) in
      (
        λ op. each_once zero_snapshot op snaps,
        subst (Sorted InOrder)
            (sym (
              names-values (sorted_entries zero_snapshot m) named
              ∙ sorted_entries-names zero_snapshot m))
            (sorted_keys-Sorted m),
      )
