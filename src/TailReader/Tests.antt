-- ===== src/TailReader/Tests.antt =====
-- Runs of the tail reader, and a concrete use of the theorem about it.
use fix_mon.Prelude.{◌≡◌, refl, true, false, none, some, [], ◌∷◌, ◌++◌, codes, find_index}
use fix_mon.TailReader.{
  TailReader, strip_cr, emit, drain, on_chunk, open_stream, replaced, detect_rotation, read_new,
  poll,
}
use fix_mon.Prelude.{ℕ, List, All, Bytes, unlines, Free-find_index}
use fix_mon.TailReader.{new_tail, poll_all, is_newline}
use fix_mon.TailReader.Rotations.{found, lines_of, CutShort, poll_all-found}
use fix_mon.TailReader.Lines.{Line, on_chunk-unlines}

abbrev closed : TailReader
closed = record { is_open = false; offset = 0; carry = []; inode = 0; last_size = 0; rotations = 0 }

-- CRLF, an empty line, and the start of a line
poll-crlf :
    (poll true (some (record { file_id = 7; content = codes "a\r\n\nb\nc" })) closed).0
    ≡ codes "a" ∷ codes "b" ∷ []
unfolding poll open_stream detect_rotation replaced read_new on_chunk drain emit strip_cr find_index
poll-crlf = refl

poll-missing : poll true none closed ≡ ([], closed)
unfolding poll open_stream
poll-missing = refl

-- the first file is polled in the middle of a line, and has a line that no poll sees; then another
-- is under the path
abbrev two_files : List (ℕ × List Bytes × Bytes)
two_files = (7, codes "a\nb" ∷ codes "c\n" ∷ [], codes "late\n") ∷ (8, codes "d\n" ∷ [], []) ∷ []

poll_all-found_example :
    ((poll_all true (found two_files) (new_tail true none)).0 ≡ lines_of two_files)
    × All CutShort two_files
poll_all-found_example = poll_all-found two_files none (refl, refl, refl, (refl, refl, refl, tt)) tt

abbrev crlf_lines : List Line
crlf_lines =
    record { content = codes "a"; cr = true }
    ∷ record { content = []; cr = false }
    ∷ record { content = codes "b"; cr = false }
    ∷ []

on_chunk-unlines_example :
    on_chunk [] (unlines (codes "a\r" ∷ [] ∷ codes "b" ∷ []) ++ codes "c")
    ≡ (codes "a" ∷ codes "b" ∷ [], codes "c")
unfolding find_index
on_chunk-unlines_example =
    on_chunk-unlines crlf_lines (codes "c")
      (
        (Free-find_index is_newline (codes "a") refl, λ e. refl),
        ((tt, λ e. refl), ((Free-find_index is_newline (codes "b") refl, λ e. refl), tt)),
      )
      (Free-find_index is_newline (codes "c") refl)
