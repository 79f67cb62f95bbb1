-- ===== src/Verify/History/Index.antt =====
-- A history that is read back holds its events in the order of the file, and its maps index them.
use proofload_sh.Prelude.{
  ℕ, suc, ◌≡◌, refl, sym, ap, ◌∙◌, arith, Bool, true, false, List, [], ◌∷◌, ◌++◌, if◌then◌else◌, ℤ,
  eqb_ℤ, eqb_ℤ_iff, keep, Dict, lookup, int_eq, lookup-insert,
}
use proofload_sh.Verify.Log.{Result, ok}
use proofload_sh.Verify.History.{
  Event, Line, blank, malformed, recorded, History, events_or_empty, add_event, add_to_history,
  empty_history, read_lines, read_history, by_process_of, by_key_of,
}

-- The events that the lines of a file hold.
abbrev pub events_in : List Line → List Event
events_in [] = []
events_in (recorded e ∷ ls) = e ∷ events_in ls
events_in (_ ∷ ls) = events_in ls

abbrev pub of_key : ℤ → Event → Bool
of_key k e = eqb_ℤ e.key k

abbrev pub of_process : ℤ → Event → Bool
of_process p e = eqb_ℤ e.process p

-- A history whose maps agree with its events.
pub record IsIndexed (h : History) : Type 0 where
  pub keyed : (k : ℤ) → by_key_of k h ≡ keep (of_key k) h.events
  pub processed : (p : ℤ) → by_process_of p h ≡ keep (of_process p) h.events

keep-snoc :
    (test : Event → Bool) (es : List Event) (e : Event)
    → keep test (es ++ e ∷ []) ≡ (if test e then keep test es ++ e ∷ [] else keep test es)
keep-snoc test [] e = ground arith
keep-snoc test (x ∷ es) e = let rest = keep-snoc test es e in ground (arith, rest)

-- The entry of a key after an event was appended to the entry of its own key.
events-add_event :
    (i k : ℤ) (e : Event) (m : Dict ℤ (List Event))
    → events_or_empty (lookup k (add_event i e m))
      ≡ (if eqb_ℤ i k then events_or_empty (lookup k m) ++ e ∷ [] else events_or_empty (lookup k m))
unfolding add_event
events-add_event i k e m =
    ground (arith, lookup-insert i k (events_or_empty (lookup i m) ++ e ∷ []) m, eqb_ℤ_iff i k)

add_to_history-IsIndexed : (e : Event) (h : History) → IsIndexed h → IsIndexed (add_to_history e h)
unfolding add_to_history by_key_of by_process_of
add_to_history-IsIndexed e h v = record {
  keyed = λ k.
      ground
        (arith, v.keyed k, events-add_event e.key k e h.by_key, keep-snoc (of_key k) h.events e);
  processed = λ p. ground (
    arith,
    v.processed p,
    events-add_event e.process p e h.by_process,
    keep-snoc (of_process p) h.events e,
  );
}

append_assoc : (xs : List Event) (e : Event) (ys : List Event) → (xs ++ e ∷ []) ++ ys ≡ xs ++ e ∷ ys
append_assoc [] e ys = refl
append_assoc (x ∷ xs) e ys = ap (λ zs. x ∷ zs) (append_assoc xs e ys)

append_nil : (xs : List Event) → xs ++ [] ≡ xs
append_nil [] = refl
append_nil (x ∷ xs) = ap (λ zs. x ∷ zs) (append_nil xs)

-- Whether every line is blank or an event.
abbrev pub decodes : List Line → Bool
decodes [] = true
decodes (malformed ∷ ls) = false
decodes (_ ∷ ls) = decodes ls

-- What a file of such lines becomes.
pub record Read (r : Result History) (es : List Event) : Type 0 where
  pub history : History
  pub read : r ≡ ok history
  pub events : history.events ≡ es
  pub indexed : IsIndexed history

read_lines-Read :
    (n : ℕ) (ls : List Line) (h : History)
    → decodes ls ≡ true
    → IsIndexed h
    → Read (read_lines false n ls h) (h.events ++ events_in ls)
unfolding read_lines
read_lines-Read n [] h d v = record {
  history = h;
  read = refl;
  events = sym (append_nil h.events);
  indexed = v;
}
read_lines-Read n (blank ∷ ls) h d v = read_lines-Read (suc n) ls h d v
read_lines-Read n (malformed ∷ ls) h d v = cc
read_lines-Read n (recorded e ∷ ls) h d v =
    let rest = read_lines-Read (suc n) ls (add_to_history e h) d (add_to_history-IsIndexed e h v) in
    record {
      history = rest.history;
      read = rest.read;
      events = rest.events ∙ (unfold add_to_history in append_assoc h.events e (events_in ls));
      indexed = rest.indexed;
    }

-- A file of blank lines and events is read without an error: the history holds its events in the order of
-- the file, and `ByKey` and `ByProcess` answer with the events of one key, or of one process, in that order.
pub read_history-Read :
    (ls : List Line) → decodes ls ≡ true → Read (read_history false ls) (events_in ls)
unfolding read_history
read_history-Read ls d = read_lines-Read 1 ls empty_history d (record {
  keyed = λ k. (unfold lookup by_key_of in refl);
  processed = λ p. (unfold lookup by_process_of in refl);
})
