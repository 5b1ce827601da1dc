-- ===== src/TailReader/Lines.antt =====
-- The lines that `TailReader::poll` (fix_monitor/src/tail_reader.cpp) finds in a text.
use fix_mon.Prelude.{
  ℕ, zero, suc, Bool, true, false, is_empty, ◌==◌, if◌then◌else◌, append-nil, Free-append, ◌<◌, ◌≡◌,
  refl, ap, ◌∙◌, List, [], ◌∷◌, ◌++◌, append_assoc, All, Bytes, length, length-append, unlines,
  find_index-Free, Free, arith,
}
use fix_mon.TailReader.{strip_cr, emit, is_newline, drain, on_chunk}
use fix_mon.TailReader.Chunks.{drain_cut, drain_none}

-- a line as it was written: what it says, and whether a CR follows
pub record Line : Type 0 where
  pub content : Bytes
  pub cr : Bool

abbrev pub written : List Line → List Bytes
written [] = []
written (l ∷ ls) = (l.content ++ (if l.cr then 13 ∷ [] else [])) ∷ written ls

-- the contents, less the empty ones
abbrev pub contents : List Line → List Bytes
contents [] = []
contents (l ∷ ls) = if is_empty l.content then contents ls else l.content ∷ contents ls

abbrev pub ends_in_cr : Bytes → Bool
ends_in_cr [] = false
ends_in_cr (c ∷ []) = c == 13
ends_in_cr (c ∷ (d ∷ cs)) = ends_in_cr (d ∷ cs)

-- on one line, and with any CR at the end told apart
abbrev pub IsLine : Line → Type 0
IsLine l = Free is_newline l.content × (l.cr ≡ false → ends_in_cr l.content ≡ false)

strip_cr-append : (cs : Bytes) → strip_cr (cs ++ 13 ∷ []) ≡ cs
unfolding strip_cr
strip_cr-append [] = refl
strip_cr-append (c ∷ []) = refl
strip_cr-append (c ∷ (d ∷ cs)) = ap (λ (l : Bytes). c ∷ l) (strip_cr-append (d ∷ cs))

strip_cr_none : (cs : Bytes) → ends_in_cr cs ≡ false → strip_cr cs ≡ cs
unfolding strip_cr
strip_cr_none [] e = refl
strip_cr_none (c ∷ []) e = rw e
strip_cr_none (c ∷ (d ∷ cs)) e = ap (λ (l : Bytes). c ∷ l) (strip_cr_none (d ∷ cs) e)

strip_cr-written :
    (content : Bytes) (cr : Bool)
    → (cr ≡ false → ends_in_cr content ≡ false)
    → strip_cr (content ++ (if cr then 13 ∷ [] else [])) ≡ content
strip_cr-written content true h = strip_cr-append content
strip_cr-written content false h = ap strip_cr (append-nil content) ∙ strip_cr_none content (h refl)

written-Free :
    (content : Bytes) (cr : Bool)
    → Free is_newline content
    → Free is_newline (content ++ (if cr then 13 ∷ [] else []))
written-Free content true f = Free-append is_newline content (13 ∷ []) f (refl, tt)
written-Free content false f = Free-append is_newline content [] f tt

-- the lines as the loop cuts them
abbrev delivered : List Bytes → List Bytes
delivered [] = []
delivered (l ∷ ls) = emit (strip_cr l) (delivered ls)

delivered-written : (ls : List Line) → All IsLine ls → delivered (written ls) ≡ contents ls
unfolding emit
delivered-written [] a = refl
delivered-written (l ∷ ls) a =
    let rest = delivered-written ls a.1 in rw (strip_cr-written l.content l.cr a.0.1, rest)

lines-Free : (ls : List Line) → All IsLine ls → All (Free is_newline) (written ls)
lines-Free [] a = tt
lines-Free (l ∷ ls) a = (written-Free l.content l.cr a.0.0, lines-Free ls a.1)

drain-unlines :
    (fuel : ℕ) (ls : List Bytes) (tail : Bytes)
    → All (Free is_newline) ls
    → Free is_newline tail
    → length (unlines ls ++ tail) < fuel
    → drain fuel (unlines ls ++ tail) ≡ (delivered ls, tail)
drain-unlines zero ls tail a f h = absurd (omega arith)
drain-unlines (suc fuel) [] tail a f h = drain_none fuel tail (find_index-Free is_newline tail f)
drain-unlines (suc fuel) (l ∷ ls) tail a f h =
    let whole = append_assoc l (10 ∷ unlines ls) tail in
    ap (drain (suc fuel)) whole
    ∙ drain_cut fuel l 10 (unlines ls ++ tail) a.0 refl
    ∙ ap (λ (d : List Bytes × Bytes). (emit (strip_cr l) d.0, d.1))
        (drain-unlines fuel ls tail a.1 f
          (omega (arith, ap length whole, length-append l (10 ∷ (unlines ls ++ tail)))))

-- A text of lines that each end with a line feed, some with a CR before it, and the start of one
-- more, is cut into those lines: the contents are delivered in their order, without the CR, those
-- that are empty are not delivered, and the unfinished line is carried over.
pub on_chunk-unlines :
    (ls : List Line) (tail : Bytes)
    → All IsLine ls
    → Free is_newline tail
    → on_chunk [] (unlines (written ls) ++ tail) ≡ (contents ls, tail)
unfolding on_chunk
on_chunk-unlines ls tail a f =
    let text = unlines (written ls) ++ tail in
    drain-unlines (suc (length text)) (written ls) tail (lines-Free ls a) f (omega arith)
    ∙ ap (λ (l : List Bytes). (l, tail)) (delivered-written ls a)
