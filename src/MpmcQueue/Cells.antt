-- ===== src/MpmcQueue/Cells.antt =====
-- The cells of the queue: what their sequence numbers say of the positions.
use fix_mon.Prelude.{
  ℕ, ◌+◌, ◌-◌, ◌%◌, ◌^◌, ◌≤◌, ◌<◌, ◌≡◌, sym, ap, subst, ◌∙◌, some, [], ◌∷◌, ◌++◌, length,
  length-append, get_elem?, get_elem?-append, ltb, ◌==◌, if◌then◌else◌, arith, inl, inr, Bool-cases,
  ==_iff,
}
use fix_mon.MpmcQueue.{Queue, update, u64}

-- positions of one cell lie `C` apart
pub mod_gap : (C p q : ℕ) → 0 < C → p % C ≡ q % C → q < p → q + C ≤ p
mod_gap C p q h e l = grind arith

pub mod_add : (C q : ℕ) → 0 < C → (q + C) % C ≡ q % C
mod_add C q h = grind arith

pub minus_add : (a b : ℕ) → b ≤ a → a - b + b ≡ a
minus_add a b h = omega arith

pub mod_lt : (C p : ℕ) → 0 < C → p % C < C
mod_lt C p h = grind arith

-- The stage of a position: 0 free, 1 claimed by a push, 2 full, 3 claimed by a pop, 4 done.
-- `cur` is the position that a cell serves.
pub record Cells {ℓ} {A : Type ℓ} (C : ℕ) (m : Queue A) (stage cur : ℕ → ℕ) : Type ℓ where
  pub fresh : (p : ℕ) → m.enqueue_pos ≤ p → stage p ≡ 0
  pub begun : (p : ℕ) → p < m.enqueue_pos → 1 ≤ stage p
  pub unpopped : (p : ℕ) → m.dequeue_pos ≤ p → stage p ≤ 2
  pub popped : (p : ℕ) → p < m.dequeue_pos → 3 ≤ stage p
  pub most : (p : ℕ) → stage p ≤ 4
  pub slot : (i : ℕ) → i < C → cur i % C ≡ i
  pub behind : (p : ℕ) → p < cur (p % C) → stage p ≡ 4
  pub ahead : (p : ℕ) → cur (p % C) < p → stage p ≡ 0
  pub busy : (i : ℕ) → i < C → stage (cur i) ≤ 3
  pub seqs : (i : ℕ) → i < C → m.seq i ≡ (if ltb (stage (cur i)) 2 then cur i else cur i + 1)
  pub held : length m.pushed ≡ m.enqueue_pos
  pub full : (p : ℕ) → stage p ≡ 2 → get_elem? m.pushed p ≡ some (m.content (p % C))

module _ {ℓ} {A : Type ℓ} {C : ℕ} {m : Queue A} {stage cur : ℕ → ℕ} (room : 1 < C)
    (c : Cells C m stage cur) where
  -- a position at work is the one that its cell serves
  pub working : (p : ℕ) → 1 ≤ stage p → stage p ≤ 3 → cur (p % C) ≡ p
  working p lo hi = ground (arith, c.behind p, c.ahead p)

  pub same_cell :
      (p q : ℕ) → p % C ≡ q % C → 1 ≤ stage p → stage p ≤ 3 → 1 ≤ stage q → stage q ≤ 3 → p ≡ q
  same_cell p q e a b d f = sym (working p a b) ∙ ap cur e ∙ working q d f

  pub positions_le : m.dequeue_pos ≤ m.enqueue_pos
  positions_le = ground (arith, c.popped m.enqueue_pos, c.fresh m.enqueue_pos)

  pub cur_bound : (i : ℕ) → i < C → cur i < m.enqueue_pos + C
  cur_bound i h = elim (Bool-cases (ltb (cur i) C)) [
    | inl small ↦ ground arith
    | inr large ↦ ground (
      arith,
      c.slot i,
      mod_add C (cur i - C),
      c.behind (cur i - C),
      c.fresh (cur i - C),
      minus_add (cur i) C,
    )
  ]

  pub push_claims :
      (q : ℕ) (v : A)
      → m.enqueue_pos ≡ q
      → q + 1 < 2 ^ 64
      → cur (q % C) ≡ q
      → Cells C
          (record m { enqueue_pos = u64 (q + 1); pushed = m.pushed ++ v ∷ [] })
          (update stage q 1)
          cur
  push_claims q v e small here = record {
    fresh = λ p h. ground (arith, c.fresh p);
    begun = λ p h. ground (arith, c.begun p);
    unpopped = λ p h. ground (arith, c.unpopped p);
    popped = λ p h. ground (arith, c.popped p, c.fresh q);
    most = λ p. ground (arith, c.most p);
    slot = c.slot;
    behind = λ p h. ground (arith, c.behind p);
    ahead = λ p h. ground (arith, c.ahead p, here);
    busy = λ i h. ground (arith, c.busy i);
    seqs = λ i h. ground (arith, c.seqs i, c.fresh q);
    held = omega (arith, length-append m.pushed (v ∷ []), c.held);
    full = λ p h. get_elem?-append m.pushed (v ∷ []) p (c.full p (ground (arith, h)));
  }

  pub push_writes :
      (q : ℕ) (v : A)
      → stage q ≡ 1
      → Cells C (record m { content = update m.content (q % C) v }) stage cur
  push_writes q v e = record {
    fresh = c.fresh;
    begun = c.begun;
    unpopped = c.unpopped;
    popped = c.popped;
    most = c.most;
    slot = c.slot;
    behind = c.behind;
    ahead = c.ahead;
    busy = c.busy;
    seqs = c.seqs;
    held = c.held;
    full = λ p h. elim (Bool-cases (q % C == p % C)) [
      | inl same ↦ absurd (
          omega (
            arith,
            e,
            h,
            ap stage (
                same_cell p q (sym ((==_iff (q % C) (p % C)).0 same)) (omega arith) (omega arith)
                  (omega arith) (omega arith)),
          ))
      | inr other ↦ rw other (c.full p h)
    ];
  }

  pub push_stores :
      (q : ℕ)
      → stage q ≡ 1
      → q + 1 < 2 ^ 64
      → get_elem? m.pushed q ≡ some (m.content (q % C))
      → Cells C (record m { seq = update m.seq (q % C) (u64 (q + 1)) }) (update stage q 2) cur
  push_stores q e small value = record {
    fresh = λ p h. ground (arith, c.fresh p);
    begun = λ p h. ground (arith, c.begun p);
    unpopped = λ p h. ground (arith, c.unpopped p);
    popped = λ p h. ground (arith, c.popped p);
    most = λ p. ground (arith, c.most p);
    slot = c.slot;
    behind = λ p h. ground (arith, c.behind p);
    ahead = λ p h. ground (arith, c.ahead p);
    busy = λ i h. ground (arith, c.busy i);
    seqs = λ i h. ground (arith, c.seqs i, c.slot i, working q);
    held = c.held;
    full = λ p h. elim (Bool-cases (q == p)) [
      | inl same ↦
          subst (λ t. get_elem? m.pushed t ≡ some (m.content (t % C))) ((==_iff q p).0 same) value
      | inr other ↦ c.full p (ground (arith, h, other))
    ];
  }

  pub pop_claims :
      (q : ℕ)
      → m.dequeue_pos ≡ q
      → stage q ≡ 2
      → q + 1 < 2 ^ 64
      → Cells C (record m { dequeue_pos = u64 (q + 1) }) (update stage q 3) cur
  pop_claims q e f small = record {
    fresh = λ p h. ground (arith, c.fresh p);
    begun = λ p h. ground (arith, c.begun p);
    unpopped = λ p h. ground (arith, c.unpopped p);
    popped = λ p h. ground (arith, c.popped p);
    most = λ p. ground (arith, c.most p);
    slot = c.slot;
    behind = λ p h. ground (arith, c.behind p);
    ahead = λ p h. ground (arith, c.ahead p);
    busy = λ i h. ground (arith, c.busy i);
    seqs = λ i h. ground (arith, c.seqs i);
    held = c.held;
    full = λ p h. ground (arith, c.full p);
  }

  pub pop_stores :
      (q : ℕ)
      → stage q ≡ 3
      → q + C < 2 ^ 64
      → Cells C
          (record m { seq = update m.seq (q % C) (u64 (q + C)) })
          (update stage q 4)
          (update cur (q % C) (q + C))
  pop_stores q e small = record {
    fresh = λ p h. ground (arith, c.fresh p);
    begun = λ p h. ground (arith, c.begun p);
    unpopped = λ p h. ground (arith, c.unpopped p);
    popped = λ p h. ground (arith, c.popped p);
    most = λ p. ground (arith, c.most p);
    slot = λ i h. ground (arith, c.slot i, mod_add C q);
    behind = λ p h. ground (arith, c.behind p, working q, mod_gap C p q);
    ahead = λ p h. ground (arith, c.ahead p, working q);
    busy = λ i h. ground (arith, c.busy i, c.slot i, c.ahead (q + C), working q, mod_add C q);
    seqs = λ i h. ground (arith, c.seqs i, c.slot i, c.ahead (q + C), working q, mod_add C q);
    held = c.held;
    full = λ p h. ground (arith, c.full p);
  }
