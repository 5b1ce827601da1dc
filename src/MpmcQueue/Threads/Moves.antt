-- ===== src/MpmcQueue/Threads/Moves.antt =====
-- Each access keeps the invariant.
use fix_mon.Prelude.{
  ℕ, suc, ◌+◌, ◌%◌, ◌^◌, ◌≤◌, ◌<◌, pos, ◌≡◌, ◌≢◌, refl, sym, ap, subst, ◌∙◌, false, some, [], ◌∷◌,
  ◌++◌, get_elem?, get_elem?-append, get_elem?-last, ◌==◌, arith, inl, inr, Bool-cases, some_eq,
  ==_iff,
}
use fix_mon.MpmcQueue.{Queue, Pc, Move, update, u64, diff}
use fix_mon.MpmcQueue.Cells.{
  working, same_cell, positions_le, cur_bound, push_claims, push_writes, push_stores, pop_claims,
  pop_stores, mod_lt, mod_gap,
}
use fix_mon.MpmcQueue.Threads.{
  owned, Local, Inv, diff_zero, differs, together, only_local, others, working_stage,
}

update_same {ℓ} : {A : Type ℓ} (f : ℕ → A) (k : ℕ) (a : A) → update f k a k ≡ a
update_same f k a = rw ((==_iff k k).1 refl)

module _ {A : Type 0} {C n : ℕ} {m : Queue A} {pc : ℕ → Pc A} (inv : Inv C n m pc) (i : ℕ)
    (room : 1 < C) (small : n + C + 1 < 2 ^ 63) where
  open inv use {stage, cur, cells, local, unique, early}

  -- the sequence number that is loaded
  loaded_small : (at : ℕ) → m.seq (at % C) < 2 ^ 64
  loaded_small at =
      let l = mod_lt C at (omega arith) in
      ground (arith, cells.seqs (at % C) l, cur_bound room cells (at % C) l)

  loaded_push : (at : ℕ) → m.seq (at % C) ≡ at → at ≤ cur (at % C)
  loaded_push at e =
      let l = mod_lt C at (omega arith) in
      ground (arith, cells.seqs (at % C) l, cells.slot (at % C) l, mod_gap C at (cur (at % C)))

  loaded_pop : (at : ℕ) → m.seq (at % C) ≡ at + 1 → 2 ≤ stage at
  loaded_pop at e =
      let l = mod_lt C at (omega arith) in
      ground (arith, cells.seqs (at % C) l, cells.slot (at % C) l, mod_gap C (cur (at % C)) at)

  -- a sequence number ahead of the position tells that the position has been claimed
  pushed_past : (at : ℕ) → at ≤ m.enqueue_pos → at < m.seq (at % C) → at < m.enqueue_pos
  pushed_past at h e =
      let l = mod_lt C at (omega arith) in
      ground (
        arith,
        cells.seqs (at % C) l,
        cells.slot (at % C) l,
        cells.behind at,
        cells.fresh at,
        mod_gap C at (cur (at % C)),
        mod_gap C (cur (at % C)) at,
      )

  popped_past : (at : ℕ) → at ≤ m.dequeue_pos → at + 1 < m.seq (at % C) → at < m.dequeue_pos
  popped_past at h e =
      let l = mod_lt C at (omega arith) in
      ground (
        arith,
        cells.seqs (at % C) l,
        cells.slot (at % C) l,
        cells.behind at,
        cells.unpopped at,
        mod_gap C at (cur (at % C)),
        mod_gap C (cur (at % C)) at,
      )

  -- a stage that is neither 1 nor 3 is nobody's
  unowned : (j q p : ℕ) → stage q ≢ 1 → stage q ≢ 3 → owned (pc j) ≡ some p → (q == p) ≡ false
  unowned j q p a b o = elim (Bool-cases (q == p)) [
    | inl f ↦
        let same = ap stage ((==_iff q p).0 f) in
        elim (working_stage inv i (pc j) p (local j) o) [
          | inl s ↦ absurd (a (same ∙ s))
          | inr s ↦ absurd (b (same ∙ s))
        ]
    | inr f ↦ f
  ]

  win_push :
      (v : A) (at seq : ℕ)
      → Local C m stage cur (Pc.push_seen v at seq)
      → diff seq at ≡ pos 0
      → m.enqueue_pos ≡ at
      → Inv C
          (suc n)
          (record m { enqueue_pos = u64 (at + 1); pushed = m.pushed ++ v ∷ [] })
          (update pc i (Pc.push_own v at))
  win_push v at seq own d e =
      let free = cells.fresh at (omega arith) in
      let behind = own.2 (diff_zero seq at own.1 (omega arith) d) in
      let here : cur (at % C) ≡ at = ground (arith, cells.behind at) in
      together inv i (update stage at 1) cur
        (record m { enqueue_pos = u64 (at + 1); pushed = m.pushed ++ v ∷ [] }) (Pc.push_own v at)
        (push_claims room cells at v e (omega arith) here)
        (
          ground arith,
          subst (λ t. get_elem? (m.pushed ++ v ∷ []) t ≡ some v) (cells.held ∙ e)
              (get_elem?-last m.pushed v),
        )
        (λ j ne. record {
          enqueues = omega arith;
          dequeues = omega arith;
          turns = λ k. omega arith;
          stages = λ p h. ground (arith, free);
          mine = λ p o. (rw (unowned j at p (omega arith) (omega arith) o), refl);
          history = λ p w h. get_elem?-append m.pushed (v ∷ []) p h;
        })
        (λ j p ne o o'. differs at p (unowned j at p (omega arith) (omega arith) o') (some_eq o))
        (omega (arith, early))

  -- a move by which the thread keeps the position that it has
  keeps :
      (at : ℕ) (p' : Pc A)
      → owned (pc i) ≡ some at
      → ((q : ℕ) → owned p' ≡ some q → at ≡ q)
      → (j p : ℕ) → (i == j) ≡ false
      → owned p' ≡ some p
      → owned (pc j) ≢ some p
  keeps at p' e k j p ne o o' = differs at p (others inv i j at p ne e o') (k p o)

  other_cell :
      (j at p : ℕ)
      → (i == j) ≡ false
      → owned (pc i) ≡ some at
      → stage at ≡ 1
      → owned (pc j) ≡ some p
      → (at % C == p % C) ≡ false
  other_cell j at p ne e s o = elim (Bool-cases (at % C == p % C)) [
    | inl f ↦
        let same = λ (lo : 1 ≤ stage p) (hi : stage p ≤ 3).
          same_cell room cells at p ((==_iff (at % C) (p % C)).0 f) (omega arith) (omega arith) lo
            hi in
        elim (working_stage inv i (pc j) p (local j) o) [
          | inl w ↦
              absurd (differs at p (others inv i j at p ne e o) (same (omega arith) (omega arith)))
          | inr w ↦
              absurd (differs at p (others inv i j at p ne e o) (same (omega arith) (omega arith)))
        ]
    | inr f ↦ f
  ]

  write :
      (v : A) (at : ℕ)
      → owned (pc i) ≡ some at
      → Local C m stage cur (Pc.push_own v at)
      → Inv C
          (suc n)
          (record m { content = update m.content (at % C) v })
          (update pc i (Pc.push_wrote v at))
  write v at e own =
      together inv i stage cur (record m { content = update m.content (at % C) v })
        (Pc.push_wrote v at) (push_writes room cells at v own.0)
        (own.0, own.1, own.1 ∙ ap (λ t. some t) (sym (update_same m.content (at % C) v)))
        (λ j ne. record {
          enqueues = omega arith;
          dequeues = omega arith;
          turns = λ k. omega arith;
          stages = λ p h. h;
          mine = λ p o. (refl, rw (other_cell j at p ne e own.0 o));
          history = λ p w h. h;
        })
        (keeps at (Pc.push_wrote v at) e (λ q o. some_eq o)) (omega (arith, early))

  publish :
      (v : A) (at : ℕ)
      → owned (pc i) ≡ some at
      → Local C m stage cur (Pc.push_wrote v at)
      → Inv C
          (suc n)
          (record m { seq = update m.seq (at % C) (u64 (at + 1)) })
          (update pc i Pc.idle)
  publish v at e own =
      together inv i (update stage at 2) cur
        (record m { seq = update m.seq (at % C) (u64 (at + 1)) }) Pc.idle
        (push_stores room cells at own.0 (ground (arith, cells.fresh at)) own.2) tt
        (λ j ne. record {
          enqueues = omega arith;
          dequeues = omega arith;
          turns = λ k. omega arith;
          stages = λ p h. ground arith;
          mine = λ p o. (rw (others inv i j at p ne e o), refl);
          history = λ p w h. h;
        })
        (keeps at Pc.idle e (λ q o. cc)) (omega (arith, early))

  win_pop :
      (at seq : ℕ)
      → Local C m stage cur (Pc.pop_seen at seq)
      → diff seq (u64 (at + 1)) ≡ pos 0
      → m.dequeue_pos ≡ at
      → Inv C (suc n) (record m { dequeue_pos = u64 (at + 1) }) (update pc i (Pc.pop_own at))
  win_pop at seq own d e =
      let within = positions_le room cells in
      let bound : at + 1 < 2 ^ 64 = omega arith in
      let ready = own.2 (diff_zero seq (u64 (at + 1)) own.1 (omega arith) d ∙ omega arith) in
      let full : stage at ≡ 2 = ground (arith, cells.unpopped at) in
      together inv i (update stage at 3) cur (record m { dequeue_pos = u64 (at + 1) })
        (Pc.pop_own at) (pop_claims room cells at e full bound) (ground arith, cells.full at full)
        (λ j ne. record {
          enqueues = omega arith;
          dequeues = omega arith;
          turns = λ k. omega arith;
          stages = λ p h. ground arith;
          mine = λ p o. (rw (unowned j at p (omega arith) (omega arith) o), refl);
          history = λ p w h. h;
        })
        (λ j p ne o o'. differs at p (unowned j at p (omega arith) (omega arith) o') (some_eq o))
        (omega (arith, early))

  release :
      (at : ℕ) (v : A)
      → owned (pc i) ≡ some at
      → Local C m stage cur (Pc.pop_read at v)
      → Inv C
          (suc n)
          (record m { seq = update m.seq (at % C) (u64 (at + C)) })
          (update pc i Pc.idle)
  release at v e own =
      let here = working room cells at (omega (arith, own.0)) (omega (arith, own.0)) in
      together inv i (update stage at 4) (update cur (at % C) (at + C))
        (record m { seq = update m.seq (at % C) (u64 (at + C)) }) Pc.idle
        (pop_stores room cells at own.0 (ground (arith, cells.fresh at))) tt
        (λ j ne. record {
          enqueues = omega arith;
          dequeues = omega arith;
          turns = λ k. ground (arith, here);
          stages = λ p h. ground arith;
          mine = λ p o. (rw (others inv i j at p ne e o), refl);
          history = λ p w h. h;
        })
        (keeps at Pc.idle e (λ q o. cc)) (omega (arith, early))

  pub Move-Inv :
      {p p' : Pc A} {m' : Queue A} → Move C m p m' p' → pc i ≡ p → Inv C (suc n) m' (update pc i p')
  Move-Inv mv e = by_move mv (ap owned e) (subst (Local C m stage cur) e (local i))
    where
      by_move :
          {p p' : Pc A} {m' : Queue A}
          → Move C m p m' p'
          → owned (pc i) ≡ owned p
          → Local C m stage cur p
          → Inv C (suc n) m' (update pc i p')
      by_move (Move.push v) o own =
          only_local inv i (Pc.push_at v m.enqueue_pos) (omega arith) (λ q h. cc)
      by_move (Move.push_load {v} {at}) o own =
          only_local inv i (Pc.push_seen v at (m.seq (at % C)))
            (own, loaded_small at, loaded_push at, pushed_past at own) (λ q h. cc)
      by_move (Move.push_win {v} {at} {seq} d h) o own = win_push v at seq own d h
      by_move (Move.push_lose {v} d) o own =
          only_local inv i (Pc.push_at v m.enqueue_pos) (omega arith) (λ q h. cc)
      by_move (Move.push_full d) o own = only_local inv i Pc.idle tt (λ q h. cc)
      by_move (Move.push_late {v} d) o own =
          only_local inv i (Pc.push_at v m.enqueue_pos) (omega arith) (λ q h. cc)
      by_move (Move.push_write {v} {at}) o own = write v at o own
      by_move (Move.push_store {v} {at}) o own = publish v at o own
      by_move Move.pop o own = only_local inv i (Pc.pop_at m.dequeue_pos) (omega arith) (λ q h. cc)
      by_move (Move.pop_load {at}) o own =
          only_local inv i (Pc.pop_seen at (m.seq (at % C)))
            (own, loaded_small at, loaded_pop at, popped_past at own) (λ q h. cc)
      by_move (Move.pop_win {at} {seq} d h) o own = win_pop at seq own d h
      by_move (Move.pop_lose d) o own =
          only_local inv i (Pc.pop_at m.dequeue_pos) (omega arith) (λ q h. cc)
      by_move (Move.pop_empty d) o own = only_local inv i Pc.idle tt (λ q h. cc)
      by_move (Move.pop_late d) o own =
          only_local inv i (Pc.pop_at m.dequeue_pos) (omega arith) (λ q h. cc)
      by_move (Move.pop_take {at}) o own =
          only_local inv i (Pc.pop_read at (m.content (at % C))) own (λ q h. o ∙ h)
      by_move (Move.pop_store {at} {v}) o own = release at v o own
