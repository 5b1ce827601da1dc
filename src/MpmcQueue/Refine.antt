-- ===== src/MpmcQueue/Refine.antt =====
-- The queue as a bounded first-in first-out list.
use fix_mon.Prelude.{
  ℕ, zero, suc, ◌+◌, ◌-◌, ◌%◌, ◌^◌, ◌≤◌, ◌<◌, ◌<ℤ◌, pos, ◌≡◌, refl, sym, ap, subst, ◌∙◌, some, List,
  [], ◌∷◌, ◌++◌, length, length-drop, drop, get_elem?, ltb, arith, inl, inr, Bool-cases, some_eq,
}
use fix_mon.MpmcQueue.{
  Queue, Pc, Move, System, Step, by, Reach, start, later, new_queue, u64, diff, size_approx,
}
use fix_mon.MpmcQueue.Cells.{Cells, positions_le, same_cell, mod_add, minus_add}
use fix_mon.MpmcQueue.Threads.{owned, Local, Inv, diff_zero, diff_positive}
use fix_mon.MpmcQueue.Threads.Moves.{Move-Inv}

new_queue-Cells :
    {A : Type 0} (C : ℕ) (blank : A) → 1 < C → Cells C (new_queue blank) (λ p. 0) (λ i. i)
new_queue-Cells C blank h = record {
  fresh = λ p l. refl;
  begun = λ p l. absurd (omega arith);
  unpopped = λ p l. omega arith;
  popped = λ p l. absurd (omega arith);
  most = λ p. omega arith;
  slot = λ i l. grind arith;
  behind = λ p l. absurd (grind arith);
  ahead = λ p l. refl;
  busy = λ i l. omega arith;
  seqs = λ i l. refl;
  held = refl;
  full = λ p l. absurd (omega arith);
}

pub Reach-Inv :
    {A : Type 0} {C : ℕ} {blank : A} {n : ℕ} {s : System A}
    → 1 < C
    → n + C < 2 ^ 63
    → Reach C blank n s
    → Inv C n s.mem s.pc
Reach-Inv {C} {blank} h small start = record {
  stage = λ p. 0;
  cur = λ i. i;
  cells = new_queue-Cells C blank h;
  local = λ i. tt;
  unique = λ i j p e. cc;
  early = omega arith;
}
Reach-Inv h small (later r (by i mv)) =
    Move-Inv (Reach-Inv h (omega arith) r) i h (omega arith) mv refl

-- The abstract queue: the values pushed and not yet popped, the oldest first.
abbrev pub waiting : {A : Type 0} → Queue A → List A
waiting m = drop m.dequeue_pos m.pushed

-- What a bounded first-in first-out queue can do.
pub data Fifo {A : Type 0} (capacity : ℕ) (q : List A) : List A → Type 0 where
  stays : {r : List A} → r ≡ q → Fifo capacity q r
  enqueues : {r : List A} (v : A) → length q < capacity → r ≡ q ++ v ∷ [] → Fifo capacity q r
  dequeues : {r : List A} (v : A) → q ≡ v ∷ r → Fifo capacity q r

drop-append-le :
    {A : Type 0} (n : ℕ) (xs ys : List A) → n ≤ length xs → drop n (xs ++ ys) ≡ drop n xs ++ ys
drop-append-le zero xs ys h = refl
drop-append-le (suc n) [] ys h = absurd (omega arith)
drop-append-le (suc n) (x ∷ xs) ys h = drop-append-le n xs ys (omega arith)

drop_next :
    {A : Type 0} (n : ℕ) (xs : List A) {v : A}
    → get_elem? xs n ≡ some v
    → drop n xs ≡ v ∷ drop (suc n) xs
drop_next n [] e = cc
drop_next zero (x ∷ xs) e = ap (λ t. t ∷ xs) (some_eq e)
drop_next (suc n) (x ∷ xs) e = drop_next n xs e

module _ {A : Type 0} {C : ℕ} (blank : A) {n : ℕ} {s : System A} (room : 1 < C)
    (small : n + C < 2 ^ 63) (r : Reach C blank n s) where
  abbrev inv : Inv C n s.mem s.pc
  inv = Reach-Inv room small r

  open inv use {stage, cur, cells, local, unique, early}

  spread : s.mem.enqueue_pos ≤ s.mem.dequeue_pos + C
  spread = elim (Bool-cases (ltb (s.mem.dequeue_pos + C) s.mem.enqueue_pos)) [
    | inl over ↦
        let first = s.mem.dequeue_pos in
        let last = s.mem.dequeue_pos + C in
        absurd (
          omega (
            arith,
            same_cell room cells first last (sym (mod_add C first (omega arith)))
                (cells.begun first (ground arith)) (ground (arith, cells.unpopped first))
                (cells.begun last (ground arith)) (ground (arith, cells.unpopped last)),
          ))
    | inr under ↦ ground arith
  ]

  -- the cell of the next place serves it only when the queue has room
  free_cell : (at : ℕ) → s.mem.enqueue_pos ≡ at → at ≤ cur (at % C) → at < s.mem.dequeue_pos + C
  free_cell at e h = elim (Bool-cases (ltb at (s.mem.dequeue_pos + C))) [
    | inl under ↦ ground arith
    | inr over ↦
        let large : C ≤ at = ground arith in
        let same : at % C ≡ (at - C) % C =
          ap (λ t. t % C) (sym (minus_add at C large)) ∙ mod_add C (at - C) (omega arith) in
        let serves = subst (λ t. at ≤ cur t) same h in
        absurd (
          ground (arith, cells.behind (at - C), cells.unpopped (at - C), serves, large, over, room))
  ]

  -- However the pushes and pops interleave, there are never more values waiting than the queue has
  -- cells, and the two positions tell how many.
  pub waiting-le-capacity :
      (length (waiting s.mem) ≤ C)
      × (length (waiting s.mem) ≡ size_approx s.mem.enqueue_pos s.mem.dequeue_pos)
  unfolding size_approx
  waiting-le-capacity =
      let within = positions_le room cells in
      let len = length-drop s.mem.dequeue_pos s.mem.pushed in
      (omega (arith, len, cells.held, spread), ground (arith, len, cells.held))

  Move-refines :
      (i : ℕ) {p p' : Pc A} {m' : Queue A}
      → Move C s.mem p m' p'
      → Local C s.mem stage cur p
      → Fifo C (waiting s.mem) (waiting m')
  Move-refines i (Move.push_win {v} {at} {seq} d h) own =
      let len = length-drop s.mem.dequeue_pos s.mem.pushed in
      let within = positions_le room cells in
      let below = free_cell at h (own.2 (diff_zero seq at own.1 (omega (arith, early)) d)) in
      Fifo.enqueues v (omega (arith, len, cells.held, below))
        (drop-append-le s.mem.dequeue_pos s.mem.pushed (v ∷ []) (omega (arith, cells.held)))
  Move-refines i (Move.pop_win {at} {seq} d h) own =
      let within = positions_le room cells in
      let next : u64 (at + 1) ≡ suc at = omega (arith, early) in
      let ready =
        own.2 (diff_zero seq (u64 (at + 1)) own.1 (omega arith) d ∙ omega (arith, early)) in
      let full : stage at ≡ 2 = ground (arith, cells.unpopped at) in
      Fifo.dequeues (s.mem.content (at % C)) (
        ap (λ t. drop t s.mem.pushed) h
        ∙ drop_next at s.mem.pushed (cells.full at full)
        ∙ ap (λ t. s.mem.content (at % C) ∷ drop t s.mem.pushed) (sym next))
  Move-refines i (Move.push v) own = Fifo.stays refl
  Move-refines i Move.push_load own = Fifo.stays refl
  Move-refines i (Move.push_lose d) own = Fifo.stays refl
  Move-refines i (Move.push_full d) own = Fifo.stays refl
  Move-refines i (Move.push_late d) own = Fifo.stays refl
  Move-refines i Move.push_write own = Fifo.stays refl
  Move-refines i Move.push_store own = Fifo.stays refl
  Move-refines i Move.pop own = Fifo.stays refl
  Move-refines i Move.pop_load own = Fifo.stays refl
  Move-refines i (Move.pop_lose d) own = Fifo.stays refl
  Move-refines i (Move.pop_empty d) own = Fifo.stays refl
  Move-refines i (Move.pop_late d) own = Fifo.stays refl
  Move-refines i Move.pop_take own = Fifo.stays refl
  Move-refines i Move.pop_store own = Fifo.stays refl

  -- Every access by any thread is a step of a bounded first-in first-out queue: it puts a value at
  -- the back while there is room, takes the one at the front, or changes nothing.
  pub Step-refines : {t : System A} → Step C s t → Fifo C (waiting s.mem) (waiting t.mem)
  Step-refines (by i mv) = Move-refines i mv (local i)

  -- A pop that has claimed a position is about to read the value that was pushed there, the position
  -- is one that the pops have claimed, and at that time no other thread is reading at it.
  pub pop_read_lem :
      (i at : ℕ) (v : A)
      → s.pc i ≡ Pc.pop_read at v
      → (get_elem? s.mem.pushed at ≡ some v)
        × (at < s.mem.dequeue_pos)
        × ((j : ℕ) (w : A) → s.pc j ≡ Pc.pop_read at w → i ≡ j)
  pop_read_lem i at v e =
      let own = subst (Local C s.mem stage cur) e (local i) in
      (own.1, ground (arith, cells.unpopped at), λ j w f. unique i j at (ap owned e) (ap owned f))

  -- A push that starts its loop again because the sequence number is ahead of its position has
  -- been overtaken: another push has claimed the position meanwhile, so some thread made progress,
  -- and the position that it tries next is a later one.
  pub push_late_lem :
      (i at seq : ℕ) (v : A)
      → s.pc i ≡ Pc.push_seen v at seq
      → pos 0 <ℤ diff seq at
      → at < s.mem.enqueue_pos
  push_late_lem i at seq v e ahead =
      let own = subst (Local C s.mem stage cur) e (local i) in
      own.3 (diff_positive seq at (omega (arith, own.0, early)) ahead)

  -- The same of a pop.
  pub pop_late_lem :
      (i at seq : ℕ)
      → s.pc i ≡ Pc.pop_seen at seq
      → pos 0 <ℤ diff seq (u64 (at + 1))
      → at < s.mem.dequeue_pos
  pop_late_lem i at seq e ahead =
      let own = subst (Local C s.mem stage cur) e (local i) in
      let within = positions_le room cells in
      let next : u64 (at + 1) ≡ at + 1 = omega (arith, own.0, early) in
      own.3 (
        subst (λ t. t < seq) next
          (diff_positive seq (u64 (at + 1)) (omega (arith, next, own.0, early)) ahead))
