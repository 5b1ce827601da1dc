-- ===== src/TailReader/Polls.antt =====
-- What `TailReader::poll` (fix_monitor/src/tail_reader.cpp) delivers over a run of polls of a log
-- that is appended to.
use fix_mon.Prelude.{
  ℕ, ◌+◌, ◌%◌, ◌^◌, subst, find_index, ◌≤◌, ◌≡◌, refl, sym, ap, ◌∙◌, Bool, true, false, Option,
  none, some, List, [], ◌∷◌, ◌++◌, append_assoc, append-nil, Bytes, length, drop, length-append,
  drop-length-append, ltb, ◌==◌, if◌then◌else◌, arith,
}
use fix_mon.TailReader.{
  File, TailReader, drain, closed_tail, new_tail, on_chunk, open_stream, replaced, detect_rotation,
  read_new, poll, poll_all,
}
use fix_mon.TailReader.Chunks.{on_chunk-append}

abbrev pub concat : List Bytes → Bytes
concat [] = []
concat (p ∷ ps) = p ++ concat ps

-- what is found under the path at each poll, as one file grows by the pieces
abbrev pub growing : ℕ → Bytes → List Bytes → List (Option File)
growing id c [] = []
growing id c (p ∷ ps) = some (record { file_id = id; content = c ++ p }) ∷ growing id (c ++ p) ps

-- the reader has read `c` from the file
pub record At (id : ℕ) (c : Bytes) (r : TailReader) : Type 0 where
  pub opened : r.is_open ≡ true
  pub reached : r.offset ≡ length c
  pub carried : r.carry ≡ (on_chunk [] c).1
  pub known : r.inode ≡ id
  pub sized : r.last_size ≡ length c

-- the polls of one file, behind what is read of it
pub record Reads (id : ℕ) (c : Bytes) (o : List Bytes × TailReader) (before : List Bytes)
    : Type 0 where
  pub lines : before ++ o.0 ≡ (on_chunk [] c).0
  pub at : At id c o.1

same_file :
    (id n : ℕ) (c : Bytes) (r : TailReader)
    → r.inode ≡ id
    → r.last_size ≡ n
    → n ≤ length c
    → replaced (record { file_id = id; content = c }) r ≡ false
unfolding replaced
same_file id n c r e f h = ground arith

other_file :
    (id prev : ℕ) (c : Bytes) (r : TailReader)
    → r.inode ≡ prev
    → (prev == 0) ≡ false
    → (id == 0) ≡ false
    → (id == prev) ≡ false
    → replaced (record { file_id = id; content = c }) r ≡ true
unfolding replaced
other_file id prev c r e p i n = ground arith

poll_open :
    (b : Bool) (f : Option File) (r : TailReader)
    → r.is_open ≡ true
    → poll b f r ≡ read_new f (detect_rotation f r)
unfolding poll
poll_open b f r e = rw e

detect_same :
    (f : File) (r : TailReader)
    → replaced f r ≡ false
    → detect_rotation (some f) r ≡ record r { last_size = length f.content }
unfolding detect_rotation
detect_same f r e = rw e

detect_other :
    (f : File) (r : TailReader)
    → replaced f r ≡ true
    → detect_rotation (some f) r
      ≡ open_stream false (some f) (record r { rotations = (r.rotations + 1) % 2 ^ 64 })
unfolding detect_rotation
detect_other f r e = rw e

-- a read where the reader has come to the end of `c`
read_new-Reads :
    (id : ℕ) (c p : Bytes) (r : TailReader)
    → At id c (record r { last_size = length c })
    → r.last_size ≡ length (c ++ p)
    → Reads id
        (c ++ p)
        (read_new (some (record { file_id = id; content = c ++ p })) r)
        (on_chunk [] c).0
unfolding read_new
read_new-Reads id c p r a s =
    let piece = ap (λ n. drop n (c ++ p)) a.reached ∙ drop-length-append c p in
    let read =
      ap (λ (t : Bytes). on_chunk r.carry t) piece ∙ ap (λ (t : Bytes). on_chunk t p) a.carried in
    let whole = on_chunk-append [] c p in
    record {
      lines =
          ap (λ (d : List Bytes × Bytes). (on_chunk [] c).0 ++ d.0) read
          ∙ sym (ap (λ (d : List Bytes × Bytes). d.0) whole);
      at = record {
        opened = a.opened;
        reached = end_of (length p) (length-append c p) a.reached;
        carried =
            ap (λ (d : List Bytes × Bytes). d.1) read
            ∙ sym (ap (λ (d : List Bytes × Bytes). d.1) whole);
        known = a.known;
        sized = s;
      };
    }
  where
    end_of :
        {offset m n : ℕ} (k : ℕ) → n ≡ m + k → offset ≡ m → (if ltb offset n then n else offset) ≡ n
    end_of k e f = ground arith

poll_same :
    (b : Bool) (id : ℕ) (c p : Bytes) (r : TailReader)
    → At id c r
    → Reads id
        (c ++ p)
        (poll b (some (record { file_id = id; content = c ++ p })) r)
        (on_chunk [] c).0
poll_same b id c p r a =
    let f : File = record { file_id = id; content = c ++ p } in
    let kept =
      same_file id (length c) (c ++ p) r a.known a.sized (omega (arith, length-append c p)) in
    subst (λ (o : List Bytes × TailReader). Reads id (c ++ p) o (on_chunk [] c).0)
      (sym (poll_open b (some f) r a.opened ∙ ap (read_new (some f)) (detect_same f r kept)))
      (read_new-Reads id c p (record r { last_size = length (c ++ p) })
        (record {
          opened = a.opened;
          reached = a.reached;
          carried = a.carried;
          known = a.known;
          sized = refl;
        })
        refl)

-- a file that was just opened, from the start
opened-At :
    (id : ℕ) (p : Bytes) (r : TailReader)
    → At id [] (record (open_stream false (some (record { file_id = id; content = p })) r) {
      last_size = 0;
    })
unfolding open_stream on_chunk drain find_index
opened-At id p r = record {
  opened = refl;
  reached = refl;
  carried = refl;
  known = refl;
  sized = refl;
}

-- the first read of a file that was just opened
read_opened :
    (id : ℕ) (p : Bytes) (r : TailReader)
    → Reads id p
        (read_new
          (some (record { file_id = id; content = p }))
          (open_stream false (some (record { file_id = id; content = p })) r))
        []
unfolding open_stream on_chunk drain find_index
read_opened id p r =
    read_new-Reads id [] p (open_stream false (some (record { file_id = id; content = p })) r)
      (opened-At id p r) refl

pub poll_other :
    (b : Bool) (id prev : ℕ) (p : Bytes) (r : TailReader)
    → r.is_open ≡ true
    → r.inode ≡ prev
    → (prev == 0) ≡ false
    → (id == 0) ≡ false
    → (id == prev) ≡ false
    → Reads id p (poll b (some (record { file_id = id; content = p })) r) []
poll_other b id prev p r o e q i n =
    let f : File = record { file_id = id; content = p } in
    subst (λ (o : List Bytes × TailReader). Reads id p o [])
      (sym (
        poll_open b (some f) r o
        ∙ ap (read_new (some f)) (detect_other f r (other_file id prev p r e q i n))))
      (read_opened id p (record r { rotations = (r.rotations + 1) % 2 ^ 64 }))

-- what is found when the reader is made: nothing, or the file as it is before the first poll
abbrev pub Early : ℕ → Bytes → Option File → Type 0
Early id p none = Unit
Early id p (some f) = (f.file_id ≡ id) × (length f.content ≤ length p)

pub poll_first :
    (id : ℕ) (p : Bytes) (early : Option File)
    → Early id p early
    → Reads id p (poll true (some (record { file_id = id; content = p })) (new_tail true early)) []
unfolding poll open_stream new_tail on_chunk drain find_index
poll_first id p none h =
    let f : File = record { file_id = id; content = p } in
    let r = open_stream false (some f) closed_tail in
    subst (λ (o : List Bytes × TailReader). Reads id p o [])
      (sym (
        ap (read_new (some f))
          (detect_same f r (same_file id (length p) p r refl refl (omega arith)))))
      (read_opened id p closed_tail)
poll_first id p (some e) (known, le) =
    let f : File = record { file_id = id; content = p } in
    let r = open_stream false (some e) closed_tail in
    subst (λ (o : List Bytes × TailReader). Reads id p o [])
      (sym (
        ap (read_new (some f))
          (detect_same f r (same_file id (length e.content) p r known refl le))))
      (read_new-Reads id [] p (record r { last_size = length p })
        (record { opened = refl; reached = refl; carried = refl; known = known; sized = refl })
        refl)

-- reads one after the other
Reads-then :
    (id : ℕ) (c d : Bytes) (o q : List Bytes × TailReader) (before : List Bytes)
    → Reads id c o before
    → Reads id d q (on_chunk [] c).0
    → Reads id d (o.0 ++ q.0, q.1) before
Reads-then id c d o q before a b = record {
  lines = sym (append_assoc before o.0 q.0) ∙ ap (λ (l : List Bytes). l ++ q.0) a.lines ∙ b.lines;
  at = b.at;
}

-- the further polls of a file
pub growing-Reads :
    (b : Bool) (id : ℕ) (c : Bytes) (pieces : List Bytes) (r : TailReader)
    → At id c r
    → Reads id (c ++ concat pieces) (poll_all b (growing id c pieces) r) (on_chunk [] c).0
unfolding poll_all
growing-Reads b id c [] r a =
    subst (λ (t : Bytes). Reads id t ([], r) (on_chunk [] c).0) (sym (append-nil c))
      (record { lines = append-nil (on_chunk [] c).0; at = a })
growing-Reads b id c (p ∷ ps) r a =
    let s = poll_same b id c p r a in
    let o = poll b (some (record { file_id = id; content = c ++ p })) r in
    let q = poll_all b (growing id (c ++ p) ps) o.1 in
    subst (λ (t : Bytes). Reads id t (o.0 ++ q.0, q.1) (on_chunk [] c).0)
      (append_assoc c p (concat ps))
      (Reads-then id (c ++ p) ((c ++ p) ++ concat ps) o q (on_chunk [] c).0 s
        (growing-Reads b id (c ++ p) ps o.1 s.at))

-- all polls of a file, once the first has been
pub whole_file :
    (b : Bool) (id : ℕ) (p : Bytes) (ps : List Bytes) (r : TailReader)
    → Reads id p (poll b (some (record { file_id = id; content = p })) r) []
    → Reads id (p ++ concat ps) (poll_all b (growing id [] (p ∷ ps)) r) []
unfolding poll_all
whole_file b id p ps r s =
    let o = poll b (some (record { file_id = id; content = p })) r in
    Reads-then id p (p ++ concat ps) o (poll_all b (growing id p ps) o.1) [] s
      (growing-Reads b id p ps o.1 s.at)
