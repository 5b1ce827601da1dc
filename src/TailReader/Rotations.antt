-- ===== src/TailReader/Rotations.antt =====
-- What `TailReader::poll` (fix_monitor/src/tail_reader.cpp) delivers over a run of polls of a log
-- that is rotated.
use fix_mon.Prelude.{
  ℕ, ◌≡◌, refl, sym, ap, ap₂, ◌∙◌, Bool, true, false, Option, List, [], ◌∷◌, ◌++◌, append_assoc,
  Bytes, is_empty, ◌==◌, All,
}
use fix_mon.TailReader.{File, TailReader, new_tail, on_chunk, poll, poll_all}
use fix_mon.TailReader.Chunks.{on_chunk-append}
use fix_mon.TailReader.Polls.{concat, growing, Reads, Early, poll_other, poll_first, whole_file}

-- The files that take each other's place under the path: the identity, the pieces that the file has
-- grown by at each poll, and what is appended after its last poll, which no poll finds.
abbrev pub found : List (ℕ × List Bytes × Bytes) → List (Option File)
found [] = []
found ((id, pieces, unseen) ∷ files) = growing id [] pieces ++ found files

-- the lines that the polls saw of each file
abbrev pub lines_of : List (ℕ × List Bytes × Bytes) → List Bytes
lines_of [] = []
lines_of ((id, pieces, unseen) ∷ files) = (on_chunk [] (concat pieces)).0 ++ lines_of files

-- each file has an identity, not that of the one before, and a poll sees it
abbrev pub Rotated : ℕ → List (ℕ × List Bytes × Bytes) → Type 0
Rotated prev [] = Unit
Rotated prev ((id, pieces, unseen) ∷ files) =
    ((id == 0) ≡ false) × ((id == prev) ≡ false) × (is_empty pieces ≡ false) × Rotated id files

-- the lines that are delivered of a file are the first of its lines
abbrev pub CutShort : ℕ × List Bytes × Bytes → Type 0
CutShort (id, pieces, unseen) =
    (lost : List Bytes) × ((on_chunk [] (concat pieces ++ unseen)).0
      ≡ (on_chunk [] (concat pieces)).0 ++ lost)

all-CutShort : (files : List (ℕ × List Bytes × Bytes)) → All CutShort files
all-CutShort [] = tt
all-CutShort ((id, pieces, unseen) ∷ files) = (
  (
    (on_chunk (on_chunk [] (concat pieces)).1 unseen).0,
    ap (λ (d : List Bytes × Bytes). d.0) (on_chunk-append [] (concat pieces) unseen),
  ),
  all-CutShort files,
)

poll_all-append :
    (b : Bool) (xs ys : List (Option File)) (r : TailReader)
    → (poll_all b (xs ++ ys) r).0 ≡ (poll_all b xs r).0 ++ (poll_all b ys (poll_all b xs r).1).0
unfolding poll_all
poll_all-append b [] ys r = refl
poll_all-append b (x ∷ xs) ys r =
    let o = poll b x r in
    ap (λ (l : List Bytes). o.0 ++ l) (poll_all-append b xs ys o.1)
    ∙ sym (append_assoc o.0 (poll_all b xs o.1).0 (poll_all b ys (poll_all b xs o.1).1).0)

found_after :
    (id : ℕ) (p : Bytes) (ps : List Bytes) (unseen : Bytes) (files : List (ℕ × List Bytes × Bytes))
    (b : Bool) (r : TailReader)
    → Reads id (p ++ concat ps) (poll_all b (growing id [] (p ∷ ps)) r) []
    → (poll_all b (found files) (poll_all b (growing id [] (p ∷ ps)) r).1).0 ≡ lines_of files
    → (poll_all b (found ((id, p ∷ ps, unseen) ∷ files)) r).0
      ≡ lines_of ((id, p ∷ ps, unseen) ∷ files)
found_after id p ps unseen files b r a rest =
    poll_all-append b (growing id [] (p ∷ ps)) (found files) r
    ∙ ap₂ (λ (l m : List Bytes). l ++ m) a.lines rest

later_files :
    (b : Bool) (prev : ℕ) (files : List (ℕ × List Bytes × Bytes)) (r : TailReader)
    → r.is_open ≡ true
    → r.inode ≡ prev
    → (prev == 0) ≡ false
    → Rotated prev files
    → (poll_all b (found files) r).0 ≡ lines_of files
unfolding poll_all
later_files b prev [] r o e q t = refl
later_files b prev ((id, [], unseen) ∷ files) r o e q (i, n, s, t) = absurd cc
later_files b prev ((id, p ∷ ps, unseen) ∷ files) r o e q (i, n, s, t) =
    let a = whole_file b id p ps r (poll_other b id prev p r o e q i n) in
    found_after id p ps unseen files b r a
      (later_files b id files (poll_all b (growing id [] (p ∷ ps)) r).1 a.at.opened a.at.known i t)

-- what is found when the reader is made, before the first poll of the first file
abbrev pub EarlyFirst : List (ℕ × List Bytes × Bytes) → Option File → Type 0
EarlyFirst [] early = Unit
EarlyFirst ((id, [], unseen) ∷ files) early = Unit
EarlyFirst ((id, p ∷ ps, unseen) ∷ files) early = Early id p early

poll_all-lines :
    (files : List (ℕ × List Bytes × Bytes)) (early : Option File)
    → Rotated 0 files
    → EarlyFirst files early
    → (poll_all true (found files) (new_tail true early)).0 ≡ lines_of files
unfolding poll_all
poll_all-lines [] early t s = refl
poll_all-lines ((id, [], unseen) ∷ files) early (i, n, s, t) h = absurd cc
poll_all-lines ((id, p ∷ ps, unseen) ∷ files) early (i, n, s, t) h =
    let r = new_tail true early in
    let a = whole_file true id p ps r (poll_first id p early h) in
    found_after id p ps unseen files true r a (
      later_files true id files (poll_all true (growing id [] (p ∷ ps)) r).1 a.at.opened a.at.known
        i t)

-- Of a log that is appended to and rotated, the lines that the polls saw of each file are delivered
-- once and in order, file by file, however these appends fall between the polls, also in the middle
-- of a line. They are the first lines of the file: what is appended after the last poll of a file is
-- not delivered. It holds for a reader that starts at the beginning, made when there was no file yet
-- or the first was no longer than at the first poll, where no file has the identity 0 or that of the
-- one before, and each is polled.
pub poll_all-found :
    (files : List (ℕ × List Bytes × Bytes)) (early : Option File)
    → Rotated 0 files
    → EarlyFirst files early
    → ((poll_all true (found files) (new_tail true early)).0 ≡ lines_of files) × All CutShort files
poll_all-found files early t h = (poll_all-lines files early t h, all-CutShort files)
