-- ===== src/TailReader/Chunks.antt =====
-- The line loop of `TailReader::poll` (fix_monitor/src/tail_reader.cpp) on a file read in pieces.
use fix_mon.Prelude.{
  ℕ, zero, suc, ◌+◌, ◌≤◌, ◌<◌, ◌≡◌, refl, sym, ap, ◌∙◌, true, none, List, [], ◌∷◌, ◌++◌,
  append_assoc, Bytes, length, length-append, take-length-append, drop-suc-length-append, is_empty,
  find_index, find_index-append, Free, arith, inl, inr, ◌⊎◌, Bool-cases, subst,
}
use fix_mon.TailReader.{strip_cr, emit, is_newline, drain, on_chunk}

-- a text with a newline, cut at the first
abbrev Cut : Bytes → Type 0
Cut x =
    (l : Bytes) × (c : ℕ) × (r : Bytes) × (x ≡ l ++ c ∷ r)
    × Free is_newline l
    × (is_newline c ≡ true)

find_index-Cut : (x : Bytes) → (find_index is_newline x ≡ none) ⊎ Cut x
unfolding find_index
find_index-Cut [] = inl refl
find_index-Cut (c ∷ cs) = elim (Bool-cases (is_newline c)) [
  | inl e ↦ inr ([], c, cs, refl, tt, e)
  | inr n ↦ elim (find_index-Cut cs) [
    | inl h ↦ inl (rw (n, h))
    | inr (l, d, r, e, f, g) ↦ inr (c ∷ l, d, r, ap (λ (t : Bytes). c ∷ t) e, (n, f), g)
  ]
]

pub drain_cut :
    (fuel : ℕ) (l : Bytes) (c : ℕ) (r : Bytes)
    → Free is_newline l
    → is_newline c ≡ true
    → drain (suc fuel) (l ++ c ∷ r) ≡ (emit (strip_cr l) (drain fuel r).0, (drain fuel r).1)
unfolding drain
drain_cut fuel l c r f e =
    rw (find_index-append is_newline l c r f e, drain, take-length-append, drop-suc-length-append)

emit-append : (line : Bytes) (a b : List Bytes) → emit line (a ++ b) ≡ emit line a ++ b
unfolding emit
emit-append line a b = elim (Bool-cases (is_empty line)) [ inl e ↦ rw e | inr e ↦ rw e ]

pub drain_none :
    (fuel : ℕ) (x : Bytes) → find_index is_newline x ≡ none → drain (suc fuel) x ≡ ([], x)
unfolding drain
drain_none fuel x h = rw (h, drain)

length-cut : (l : Bytes) (c : ℕ) (r : Bytes) → length (l ++ c ∷ r) ≡ length l + length r + 1
length-cut l c r = omega (arith, length-append l (c ∷ r))

-- more fuel than bytes is enough
drain_enough : (m k : ℕ) (y : Bytes) → length y < m → length y < k → drain m y ≡ drain k y
drain_enough zero k y h g = absurd (omega arith)
drain_enough (suc m) zero y h g = absurd (omega arith)
drain_enough (suc m) (suc k) y h g = elim (find_index-Cut y) [
  | inl n ↦ drain_none m y n ∙ sym (drain_none k y n)
  | inr (l, c, r, e, f, i) ↦
      let len = ap length e ∙ length-cut l c r in
      subst (λ (t : Bytes). drain (suc m) t ≡ drain (suc k) t) (sym e)
        (drain_cut m l c r f i
          ∙ ap (λ (d : List Bytes × Bytes). (emit (strip_cr l) d.0, d.1))
              (drain_enough m k r (omega (arith, len)) (omega (arith, len)))
          ∙ sym (drain_cut k l c r f i))
]

-- the second piece after the first
abbrev after : ℕ → List Bytes × Bytes → Bytes → List Bytes × Bytes
after k d b = (d.0 ++ (drain k (d.1 ++ b)).0, (drain k (d.1 ++ b)).1)

after-emit :
    (k : ℕ) (l : Bytes) (d : List Bytes × Bytes) (b : Bytes)
    → (emit l (after k d b).0, (after k d b).1) ≡ after k (emit l d.0, d.1) b
after-emit k l d b =
    ap (λ (ls : List Bytes). (ls, (drain k (d.1 ++ b)).1))
      (emit-append l d.0 (drain k (d.1 ++ b)).0)

drain-append :
    (n m k : ℕ) (x b : Bytes)
    → length x < n
    → length (x ++ b) < m
    → length (x ++ b) < k
    → drain m (x ++ b) ≡ after k (drain n x) b
drain-append zero m k x b h g i = absurd (omega arith)
drain-append (suc n) zero k x b h g i = absurd (omega arith)
drain-append (suc n) (suc m) k x b h g i = elim (find_index-Cut x) [
  | inl e ↦
      drain_enough (suc m) k (x ++ b) g i
      ∙ ap (λ (d : List Bytes × Bytes). after k d b) (sym (drain_none n x e))
  | inr (l, c, r, e, f, j) ↦
      let len = ap length e ∙ length-cut l c r in
      let whole = ap (λ (t : Bytes). t ++ b) e ∙ append_assoc l (c ∷ r) b in
      let lens = ap length whole ∙ length-cut l c (r ++ b) in
      ap (drain (suc m)) whole
      ∙ drain_cut m l c (r ++ b) f j
      ∙ ap (λ (d : List Bytes × Bytes). (emit (strip_cr l) d.0, d.1))
          (drain-append n m k r b (omega (arith, len)) (omega (arith, lens)) (omega (arith, lens)))
      ∙ after-emit k (strip_cr l) (drain n r) b
      ∙ ap (λ (d : List Bytes × Bytes). after k d b)
          (sym (ap (drain (suc n)) e ∙ drain_cut n l c r f j))
]

carry_shorter : (n : ℕ) (x : Bytes) → length (drain n x).1 ≤ length x
unfolding drain
carry_shorter zero x = omega arith
carry_shorter (suc n) x = elim (find_index-Cut x) [
  | inl e ↦ omega (arith, ap (λ (d : List Bytes × Bytes). length d.1) (drain_none n x e))
  | inr (l, c, r, e, f, j) ↦ omega (
    arith,
    ap (λ (d : List Bytes × Bytes). length d.1) (ap (drain (suc n)) e ∙ drain_cut n l c r f j),
    ap length e ∙ length-cut l c r,
    carry_shorter n r,
  )
]

after_enough :
    (k j : ℕ) (d : List Bytes × Bytes) (b : Bytes)
    → length (d.1 ++ b) < k
    → length (d.1 ++ b) < j
    → after k d b ≡ after j d b
after_enough k j d b h i =
    ap (λ (r : List Bytes × Bytes). (d.0 ++ r.0, r.1)) (drain_enough k j (d.1 ++ b) h i)

-- The lines of a file do not depend on where the reads cut it: two pieces, one after the other,
-- give the lines that they give in one, in the same order, and carry over the same bytes.
pub on_chunk-append :
    (carry a b : Bytes)
    → on_chunk carry (a ++ b) ≡ (
      (on_chunk carry a).0 ++ (on_chunk (on_chunk carry a).1 b).0,
      (on_chunk (on_chunk carry a).1 b).1,
    )
unfolding on_chunk
on_chunk-append carry a b =
    let x = carry ++ a in
    let d = drain (suc (length x)) x in
    let k = suc (length (x ++ b)) in
    ap (λ (t : Bytes). drain (suc (length t)) t) (sym (append_assoc carry a b))
    ∙ drain-append (suc (length x)) k k x b (omega arith) (omega arith) (omega arith)
    ∙ after_enough k (suc (length (d.1 ++ b))) d b
        (omega (arith, length-append d.1 b, length-append x b, carry_shorter (suc (length x)) x))
        (omega arith)
