-- ===== src/Verify/Writer.antt =====
-- core/verify/logwriter.go and the writer of historyio.go: lines that go through a buffer to a file opened for
-- appending. A line is the bytes that the encoder makes of a record; the file takes bytes while the disk has
-- room for them.
use proofload_sh.Prelude.{
  ℕ, ◌-◌, Bool, true, false, List, [], ◌∷◌, ◌++◌, if◌then◌else◌, leb, length, take, drop,
}
pub mod Flushed
pub mod Examples

-- `LogWriter` and `HistoryWriter`: what the file holds, the room there is, what is buffered, whether a write to the file
-- has failed, and whether the file is open.
pub record LogWriter : Type 0 where
  pub content : List ℕ
  pub room : ℕ
  pub buffer : List ℕ
  pub failed : Bool
  pub is_open : Bool

-- `NewLogWriter` and `NewHistoryWriter`, for a file that can be opened
unfoldable pub new_log_writer : (content : List ℕ) → (room : ℕ) → LogWriter
new_log_writer content room = record {
  content = content;
  room = room;
  buffer = [];
  failed = false;
  is_open = true;
}

-- A write to the file: it fails where the room ends.
unfoldable pub file_write : List ℕ → LogWriter → LogWriter
file_write b w =
    if leb (length b) w.room
    then record w { content = w.content ++ b; room = w.room - length b }
    else record w { content = w.content ++ take w.room b; room = 0; failed = true }

-- `bufio.Writer.Flush`
unfoldable pub flush : LogWriter → LogWriter
unfolding file_write
flush w =
    let v = file_write w.buffer w in
    if w.failed
    then w
    else if v.failed
    then record v { buffer = drop w.room w.buffer }
    else record v { buffer = [] }

-- What does not fit an empty buffer goes to the file at once.
unfoldable pub buffer_rest : ℕ → List ℕ → LogWriter → LogWriter
unfolding file_write
buffer_rest size p w =
    if w.failed then w else if leb (length p) size then record w { buffer = p } else file_write p w

abbrev pub is_nil : List ℕ → Bool
is_nil [] = true
is_nil (x ∷ xs) = false

-- `LogWriter.Record` and `HistoryWriter.Append`: `bufio.Writer.Write`, with a buffer of some size
unfoldable pub record_line : ℕ → List ℕ → LogWriter → LogWriter
unfolding file_write flush buffer_rest
record_line size p w =
    let n = size - length w.buffer in
    if w.failed
    then w
    else if leb (length p) n
    then record w { buffer = w.buffer ++ p }
    else if is_nil w.buffer
    then file_write p w
    else buffer_rest size (drop n p) (flush (record w { buffer = w.buffer ++ take n p }))

unfoldable pub record_lines : ℕ → List (List ℕ) → LogWriter → LogWriter
unfolding record_line
record_lines size [] w = w
record_lines size (p ∷ ps) w = record_lines size ps (record_line size p w)

-- `Close`: the writer, and whether it reports no failure. The last argument is whether the file closes.
unfoldable pub close : (closes : Bool) → LogWriter → LogWriter × Bool
unfolding flush
close closes w =
    let v = flush w in (record v { is_open = false }, if v.failed then false else closes)
