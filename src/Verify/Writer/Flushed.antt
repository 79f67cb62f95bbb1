-- ===== src/Verify/Writer/Flushed.antt =====
-- What a writer that is closed without a failure has left in the file.
use proofload_sh.Prelude.{
  ℕ, zero, suc, ◌-◌, ◌≡◌, refl, sym, ap, ◌∙◌, arith, Bool, true, false, List, [], ◌∷◌, ◌++◌,
  if◌then◌else◌, leb, length, take, drop,
}
use mathlib.Core.List.{append_assoc, append-nil}
use proofload_sh.Verify.Writer.{
  LogWriter, new_log_writer, file_write, flush, buffer_rest, is_nil, record_line, record_lines,
  close,
}

-- What has reached the writer: the file and then the buffer.
abbrev all_of : LogWriter → List ℕ
all_of w = w.content ++ w.buffer

take-drop : (n : ℕ) (xs : List ℕ) → take n xs ++ drop n xs ≡ xs
take-drop zero xs = refl
take-drop (suc n) [] = refl
take-drop (suc n) (x ∷ xs) = ap (λ l. x ∷ l) (take-drop n xs)

-- What holds of both branches, each under its test, holds of the conditional.
of_branches {ℓ κ} :
    {A : Type ℓ} (P : A → Type κ) (b : Bool) (x y : A)
    → (b ≡ true → P x)
    → (b ≡ false → P y)
    → P (if b then x else y)
of_branches P true x y f g = f refl
of_branches P false x y f g = g refl

-- A writer that has not failed has every byte that came before, and those of a line after them.
abbrev Took : List ℕ → LogWriter → LogWriter → Type 0
Took p w v = v.failed ≡ false → (w.failed ≡ false) × (all_of v ≡ all_of w ++ p)

-- A writer that has not failed has put what it had into the file.
abbrev Emptied : LogWriter → LogWriter → Type 0
Emptied w v = v.failed ≡ false → (w.failed ≡ false) × (v.content ≡ all_of w) × (v.buffer ≡ [])

file_write-content :
    (b : List ℕ) (w : LogWriter)
    → (file_write b w).failed ≡ false
    → (w.failed ≡ false)
      × ((file_write b w).content ≡ w.content ++ b)
      × ((file_write b w).buffer ≡ w.buffer)
unfolding file_write
file_write-content b w =
    of_branches
      (λ (v : LogWriter).
        v.failed ≡ false
        → (w.failed ≡ false) × (v.content ≡ w.content ++ b) × (v.buffer ≡ w.buffer))
      (leb (length b) w.room) (record w { content = w.content ++ b; room = w.room - length b })
      (record w { content = w.content ++ take w.room b; room = 0; failed = true })
      (λ e h. (h, refl, refl)) (λ e h. cc)

flush-Emptied : (w : LogWriter) → Emptied w (flush w)
unfolding flush
flush-Emptied w =
    let v = file_write w.buffer w in
    of_branches (Emptied w) w.failed w
      (if v.failed then record v { buffer = drop w.room w.buffer } else record v { buffer = [] })
      (λ e h. absurd (ground (arith, e, h)))
      (λ e.
        of_branches (Emptied w) v.failed (record v { buffer = drop w.room w.buffer })
          (record v { buffer = [] }) (λ g h. absurd (ground (arith, g, h)))
          (λ g h. (e, (file_write-content w.buffer w g).1, refl)))

direct-Took : (p : List ℕ) (w : LogWriter) → w.buffer ≡ [] → Took p w (file_write p w)
direct-Took p w e h =
    let wrote = file_write-content p w h in
    (
      wrote.0,
      ap (λ b. (file_write p w).content ++ b) (wrote.2 ∙ e)
          ∙ append-nil ((file_write p w).content)
          ∙ wrote.1
          ∙ ap (λ c. c ++ p) (sym (append-nil w.content) ∙ ap (λ b. w.content ++ b) (sym e)),
    )

buffer_rest-Took :
    (size : ℕ) (p : List ℕ) (w : LogWriter)
    → (w.failed ≡ false → w.buffer ≡ [])
    → Took p w (buffer_rest size p w)
unfolding buffer_rest
buffer_rest-Took size p w e =
    of_branches (Took p w) w.failed w
      (if leb (length p) size then record w { buffer = p } else file_write p w)
      (λ f h. absurd (ground (arith, f, h)))
      (λ f.
        of_branches (Took p w) (leb (length p) size) (record w { buffer = p }) (file_write p w)
          (λ fits h. (
            h,
            ap (λ c. c ++ p) (sym (append-nil w.content) ∙ ap (λ b. w.content ++ b) (sym (e f))),
          ))
          (λ long. direct-Took p w (e f)))

is_nil-nil : (xs : List ℕ) → is_nil xs ≡ true → xs ≡ []
is_nil-nil [] h = refl
is_nil-nil (x ∷ xs) h = cc

-- A line of which a part fills the buffer, which is then flushed.
spilled-Took :
    (size n : ℕ) (p : List ℕ) (w : LogWriter)
    → Took p w (buffer_rest size (drop n p) (flush (record w { buffer = w.buffer ++ take n p })))
spilled-Took size n p w h =
    let filled : LogWriter = record w { buffer = w.buffer ++ take n p } in
    let rest =
      buffer_rest-Took size (drop n p) (flush filled) (λ f. (flush-Emptied filled f).2) h in
    let emptied = flush-Emptied filled rest.0 in
    (
      emptied.0,
      rest.1
          ∙ ap (λ b. (flush filled).content ++ b ++ drop n p) emptied.2
          ∙ ap (λ c. c ++ drop n p) (append-nil ((flush filled).content) ∙ emptied.1)
          ∙ ap (λ c. c ++ drop n p) (sym (append_assoc w.content w.buffer (take n p)))
          ∙ append_assoc (all_of w) (take n p) (drop n p)
          ∙ ap (λ q. all_of w ++ q) (take-drop n p),
    )

record_line-Took : (size : ℕ) (p : List ℕ) (w : LogWriter) → Took p w (record_line size p w)
unfolding record_line
record_line-Took size p w =
    let n = size - length w.buffer in
    let spilled =
      buffer_rest size (drop n p) (flush (record w { buffer = w.buffer ++ take n p })) in
    of_branches (Took p w) w.failed w
      (if leb (length p) n
        then record w { buffer = w.buffer ++ p }
        else if is_nil w.buffer
        then file_write p w
        else spilled)
      (λ f h. absurd (ground (arith, f, h)))
      (λ f.
        of_branches (Took p w) (leb (length p) n) (record w { buffer = w.buffer ++ p })
          (if is_nil w.buffer then file_write p w else spilled)
          (λ fits h. (h, sym (append_assoc w.content w.buffer p)))
          (λ long.
            of_branches (Took p w) (is_nil w.buffer) (file_write p w) spilled
              (λ e. direct-Took p w (is_nil-nil w.buffer e)) (λ e. spilled-Took size n p w)))

-- The lines one after the other.
abbrev pub joined : List (List ℕ) → List ℕ
joined [] = []
joined (p ∷ ps) = p ++ joined ps

record_lines-Took :
    (size : ℕ) (ps : List (List ℕ)) (w : LogWriter) → Took (joined ps) w (record_lines size ps w)
unfolding record_lines
record_lines-Took size [] w h = (h, sym (append-nil (all_of w)))
record_lines-Took size (p ∷ ps) w h =
    let later = record_lines-Took size ps (record_line size p w) h in
    let now = record_line-Took size p w later.0 in
    (now.0, later.1 ∙ ap (λ c. c ++ joined ps) now.1 ∙ append_assoc (all_of w) p (joined ps))

-- When a writer closes without a failure, the file holds what it held before and then every line that was
-- recorded, whole and in order, whatever the size of the buffer and however lines and buffer overlap: a
-- write that failed, at whichever line, makes the close fail.
pub close-joined :
    (size room : ℕ) (closes : Bool) (before : List ℕ) (ps : List (List ℕ))
    → let ended = close closes (record_lines size ps (new_log_writer before room)) in
      ended.1 ≡ true → ended.0.content ≡ before ++ joined ps
unfolding close new_log_writer
close-joined size room closes before ps h =
    let w = record_lines size ps (new_log_writer before room) in
    let sound = flush-Emptied w (not_failed (flush w).failed closes h) in
    sound.1
    ∙ (record_lines-Took size ps (new_log_writer before room) sound.0).1
    ∙ ap (λ c. c ++ joined ps) (append-nil before)
  where
    not_failed : (failed ok : Bool) → (if failed then false else ok) ≡ true → failed ≡ false
    not_failed true ok g = cc
    not_failed false ok g = refl
