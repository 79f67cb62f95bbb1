-- ===== src/Verify/Writer/Examples.antt =====
-- The theorem on the writer at lines that are longer than its buffer.
use proofload_sh.Prelude.{ℕ, ◌≡◌, refl, true, List, [], ◌∷◌, ◌++◌, codes}
use proofload_sh.Verify.Writer.{
  new_log_writer, file_write, flush, buffer_rest, record_line, record_lines, close,
}
use proofload_sh.Verify.Writer.Flushed.{joined, close-joined}

abbrev three_lines : List (List ℕ)
three_lines = codes "abc" ∷ codes "defghijklm" ∷ codes "no" ∷ []

closes_well : (close true (record_lines 4 three_lines (new_log_writer (codes "z") 20))).1 ≡ true
unfolding new_log_writer file_write flush buffer_rest record_line record_lines close
closes_well = refl

close-joined_example :
    (close true (record_lines 4 three_lines (new_log_writer (codes "z") 20))).0.content
    ≡ codes "z" ++ joined three_lines
close-joined_example = close-joined 4 20 true (codes "z") three_lines closes_well
