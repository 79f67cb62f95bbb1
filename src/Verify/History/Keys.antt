-- ===== src/Verify/History/Keys.antt =====
-- The keys that a history lists.
use proofload_sh.Prelude.{
  ℕ, suc, ◌+◌, ◌≡◌, refl, ap, subst, ◌∙◌, arith, Bool, true, false, ◌||◌, List, [], ◌∷◌, ◌++◌,
  if◌then◌else◌, ℤ, eqb_ℤ, eqb_ℤ_iff, ltb_ℤ, leb_ℤ, Dict, lookup, insert, int_eq, lookup-insert,
  is_some,
}
use proofload_sh.Prelude.Sort.{tally, tally-sort_stable, Sorted, sort_stable-Sorted}
use proofload_sh.Verify.Log.{Result, ok, err}
use proofload_sh.Verify.History.{
  Event, Line, blank, malformed, recorded, History, events_or_empty, add_event, add_to_history,
  empty_history, read_lines, read_history, keys_of_entries, keys,
}
use proofload_sh.Verify.History.Index.{of_key}

abbrev pub is_key : ℤ → ℤ → Bool
is_key k i = eqb_ℤ i k

abbrev pub some_event : ℤ → List Event → Bool
some_event k [] = false
some_event k (e ∷ es) = of_key k e || some_event k es

some_event-snoc :
    (k : ℤ) (es : List Event) (e : Event)
    → some_event k (es ++ e ∷ []) ≡ (of_key k e || some_event k es)
some_event-snoc k [] e = refl
some_event-snoc k (x ∷ es) e = let rest = some_event-snoc k es e in ground (arith, rest)

-- An insertion adds a key exactly when it was missing.
keys_of_entries-insert :
    (i k : ℤ) (es : List Event) (m : Dict ℤ (List Event))
    → tally (is_key k) (keys_of_entries (insert i es m))
      ≡ tally (is_key k) (keys_of_entries m)
        + (if eqb_ℤ i k then (if is_some (lookup k m) then 0 else 1) else 0)
unfolding keys_of_entries lookup insert
keys_of_entries-insert i k es [] = ground (arith, eqb_ℤ_iff i k)
keys_of_entries-insert i k es ((j, fs) ∷ m) =
    let rest = keys_of_entries-insert i k es m in
    ground (arith, rest, eqb_ℤ_iff i k, eqb_ℤ_iff j k, eqb_ℤ_iff j i)

-- Each key of an event is once among the keys of the map, and no other key is.
pub record IsKeyed (h : History) : Type 0 where
  pub present : (k : ℤ) → is_some (lookup k h.by_key) ≡ some_event k h.events
  pub once :
      (k : ℤ)
      → tally (is_key k) (keys_of_entries h.by_key) ≡ (if some_event k h.events then 1 else 0)

add_to_history-IsKeyed : (e : Event) (h : History) → IsKeyed h → IsKeyed (add_to_history e h)
unfolding add_to_history add_event
add_to_history-IsKeyed e h v = record {
  present = λ k. ground (
    arith,
    v.present k,
    some_event-snoc k h.events e,
    lookup-insert e.key k (events_or_empty (lookup e.key h.by_key) ++ e ∷ []) h.by_key,
    eqb_ℤ_iff e.key k,
  );
  once = λ k. ground (
    arith,
    v.present k,
    v.once k,
    some_event-snoc k h.events e,
    keys_of_entries-insert e.key k (events_or_empty (lookup e.key h.by_key) ++ e ∷ []) h.by_key,
    eqb_ℤ_iff e.key k,
  );
}

abbrev history_or : History → Result History → History
history_or h (ok read) = read
history_or h (err e) = h

read_lines-IsKeyed :
    (failed : Bool) (n : ℕ) (ls : List Line) (h h' : History)
    → IsKeyed h
    → read_lines failed n ls h ≡ ok h'
    → IsKeyed h'
unfolding read_lines
read_lines-IsKeyed true n [] h h' v e = cc
read_lines-IsKeyed false n [] h h' v e = subst IsKeyed (ap (history_or h) e) v
read_lines-IsKeyed failed n (blank ∷ ls) h h' v e = read_lines-IsKeyed failed (suc n) ls h h' v e
read_lines-IsKeyed failed n (malformed ∷ ls) h h' v e = cc
read_lines-IsKeyed failed n (recorded x ∷ ls) h h' v e =
    read_lines-IsKeyed failed (suc n) ls (add_to_history x h) h' (add_to_history-IsKeyed x h v) e

abbrev pub Ascending : List ℤ → Type 0
Ascending = Sorted (λ a b. leb_ℤ a b ≡ true)

-- `Keys` of a history that was read lists each key of one of its events once, no other key, and the keys in
-- ascending order.
pub keys-Ascending :
    (failed : Bool) (ls : List Line) (h : History)
    → read_history failed ls ≡ ok h
    → Ascending (keys h)
      × ((k : ℤ) → tally (is_key k) (keys h) ≡ (if some_event k h.events then 1 else 0))
unfolding read_history keys
keys-Ascending failed ls h e =
    let v =
      read_lines-IsKeyed failed 1 ls empty_history h
        (record {
          present = λ k. (unfold lookup in refl);
          once = λ k. (unfold keys_of_entries in refl);
        })
        e in
    (
      sort_stable-Sorted ltb_ℤ (λ a b. leb_ℤ a b ≡ true) (λ a b c p q. ground (arith, p, q))
          (λ a b p. ground (arith, p)) (λ a b p. ground (arith, p)) (keys_of_entries h.by_key),
      λ k. tally-sort_stable (is_key k) ltb_ℤ (keys_of_entries h.by_key) ∙ v.once k,
    )
