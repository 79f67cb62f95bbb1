-- ===== src/Runner/Connections.antt =====
-- No connection leaks: after an error every connection that was opened has been closed again, once.
use proofload_sh.Prelude.{
  ℕ, zero, suc, ◌+◌, ◌≡◌, refl, arith, Bool, List, [], ◌∷◌, ◌++◌, eqb, if◌then◌else◌, length,
  length-append, is_some, Bool-cases, inl, inr, Option-cases, ℤ, not, ◌&&◌, ◌+ℤ◌, pos_part,
}
use proofload_sh.Runner.{
  Event, opened, closed, close_all, Connected, connect_from, connect_all, Deps, Options, validate,
  Sample, run_load, run,
}

-- How often connection k was opened and closed.
abbrev pub opens : ℕ → List Event → ℕ
opens k [] = 0
opens k (opened c ∷ es) = (if eqb c k then 1 else 0) + opens k es
opens k (closed c ∷ es) = opens k es

abbrev pub closes : ℕ → List Event → ℕ
closes k [] = 0
closes k (opened c ∷ es) = closes k es
closes k (closed c ∷ es) = (if eqb c k then 1 else 0) + closes k es

abbrev pub holds : ℕ → List ℕ → ℕ
holds k [] = 0
holds k (c ∷ cs) = (if eqb c k then 1 else 0) + holds k cs

opens-append : (k : ℕ) (xs ys : List Event) → opens k (xs ++ ys) ≡ opens k xs + opens k ys
opens-append k [] ys = omega arith
opens-append k (opened c ∷ xs) ys = omega (arith, opens-append k xs ys)
opens-append k (closed c ∷ xs) ys = opens-append k xs ys

closes-append : (k : ℕ) (xs ys : List Event) → closes k (xs ++ ys) ≡ closes k xs + closes k ys
closes-append k [] ys = omega arith
closes-append k (opened c ∷ xs) ys = closes-append k xs ys
closes-append k (closed c ∷ xs) ys = omega (arith, closes-append k xs ys)

holds-append : (k : ℕ) (xs ys : List ℕ) → holds k (xs ++ ys) ≡ holds k xs + holds k ys
holds-append k [] ys = omega arith
holds-append k (c ∷ xs) ys = omega (arith, holds-append k xs ys)

close_all-counts :
    (k : ℕ) (cs : List ℕ) → (opens k (close_all cs) ≡ 0) × (closes k (close_all cs) ≡ holds k cs)
unfolding close_all
close_all-counts k [] = (refl, refl)
close_all-counts k (c ∷ cs) = let rest = close_all-counts k cs in (rest.0, omega (arith, rest.1))

-- Every connection is open as often as it is held.
abbrev Balanced : ℕ → List ℕ → List Event → Type 0
Balanced k conns trace = opens k trace ≡ closes k trace + holds k conns

module _ (connects prepares : ℕ → Bool) where
  connect_from-Balanced :
      (left i : ℕ) (conns : List ℕ) (trace : List Event) (k : ℕ)
      → Balanced k conns trace
      → let c = connect_from connects prepares left i conns trace in Balanced k c.conns c.trace
  unfolding connect_from
  connect_from-Balanced zero i conns trace k b = b
  connect_from-Balanced (suc left) i conns trace k b =
      let open_i = opens-append k trace (opened i ∷ []) in
      let close_i = closes-append k trace (opened i ∷ []) in
      let more = holds-append k conns (i ∷ []) in
      let rest =
        connect_from-Balanced left (suc i) (conns ++ i ∷ []) (trace ++ opened i ∷ []) k
          (omega (arith, open_i, close_i, more)) in
      let all = close_all-counts k conns in
      ground (
        arith,
        rest,
        all.0,
        all.1,
        open_i,
        close_i,
        opens-append k trace (close_all conns),
        closes-append k trace (close_all conns),
        opens-append k (trace ++ opened i ∷ []) (closed i ∷ close_all conns),
        closes-append k (trace ++ opened i ∷ []) (closed i ∷ close_all conns),
      )

  length-conns :
      (left i : ℕ) (conns : List ℕ) (trace : List Event)
      → let c = connect_from connects prepares left i conns trace in
        length c.conns ≡ (if is_some c.error then 0 else length conns + left)
  unfolding connect_from
  length-conns zero i conns trace = omega arith
  length-conns (suc left) i conns trace =
      let rest = length-conns left (suc i) (conns ++ i ∷ []) (trace ++ opened i ∷ []) in
      let more = length-append conns (i ∷ []) in
      elim (Bool-cases (connects i)) [
        | inr f ↦ rw f refl
        | inl t ↦ elim (Bool-cases (prepares i)) [
          | inr f ↦ rw (t, f) refl
          | inl u ↦ rw (t, u) (ground (arith, rest, more))
        ]
      ]

  -- After `connectAll` of n connections every connection was opened as often as it was closed or is held by
  -- the caller; with an error the caller holds none, and without one it holds n.
  pub connect_all-closes :
      (n k : ℕ)
      → let c = connect_all connects prepares n in
        (opens k c.trace ≡ closes k c.trace + holds k c.conns)
        × (length c.conns ≡ (if is_some c.error then 0 else n))
  unfolding connect_all
  connect_all-closes n k =
      (connect_from-Balanced n 0 [] [] k refl, ground (arith, length-conns n 0 [] []))

  holds-none : (k : ℕ) (cs : List ℕ) → length cs ≡ 0 → holds k cs ≡ 0
  holds-none k [] e = refl
  holds-none k (c ∷ cs) e = omega (arith, e)

  run_load-closes :
      (now warmup_end : ℤ) (o : Options) (samples : List Sample) (ended : Bool) (c : Connected)
      (n k : ℕ)
      → opens k c.trace ≡ closes k c.trace + holds k c.conns
      → length c.conns ≡ (if is_some c.error then 0 else n)
      → let r = run_load now warmup_end o samples ended c in
        (opens k r.trace ≡ closes k r.trace) × (is_some r.report ≡ not (is_some c.error))
  unfolding run_load
  run_load-closes now warmup_end o samples ended c n k b l = elim (Option-cases c.error) [
    | inr (e, refusal) ↦
        let empty = holds-none k c.conns (ground (arith, l, refusal)) in
        (ground (arith, refusal, b, empty), ground (arith, refusal))
    | inl fine ↦
        let all = close_all-counts k c.conns in
        (
          ground (
            arith,
            fine,
            b,
            all.0,
            all.1,
            opens-append k c.trace (close_all c.conns),
            closes-append k c.trace (close_all c.conns),
          ),
          ground (arith, fine),
        )
  ]

  -- However `Run` ends, with an invalid option, a connection that fails or is not prepared, an ended context or
  -- a full run: every connection has been closed as often as it was opened. There is a report exactly when
  -- the options are valid and every connection is there.
  pub run-closes :
      (now base : ℤ) (d : Deps) (o : Options) (samples : List Sample) (ended : Bool) (k : ℕ)
      → let r = run connects prepares now base d o samples ended in
        (opens k r.trace ≡ closes k r.trace)
        × (is_some r.report ≡ (
            not (is_some (validate d o))
            && not (is_some (connect_all connects prepares (pos_part o.connections)).error)))
  unfolding run
  run-closes now base d o samples ended k =
      let c = connect_all connects prepares (pos_part o.connections) in
      let b = connect_all-closes (pos_part o.connections) k in
      let done =
        run_load-closes now (base +ℤ o.warmup) o samples ended c (pos_part o.connections) k b.0
          b.1 in
      elim (Option-cases (validate d o)) [
        | inr (e, refusal) ↦ (ground (arith, refusal), ground (arith, refusal))
        | inl fine ↦ (ground (arith, fine, done.0), ground (arith, fine, done.1))
      ]
