-- ===== src/MpmcQueue/Threads.antt =====
-- What the local variables of the threads say of the queue.
pub mod Moves
use fix_mon.Prelude.{
  ℕ, zero, suc, ◌+◌, ◌-◌, ◌%◌, ◌^◌, ◌≤◌, ◌<◌, pos, ◌-ℤ◌, ◌<ℤ◌, ◌≡◌, ◌≢◌, refl, sym, ap, subst, ◌∙◌,
  Bool, true, false, Option, none, some, List, [], ◌∷◌, ◌++◌, length, get_elem?, get_elem?-append,
  get_elem?-last, ltb, ◌==◌, if◌then◌else◌, arith, inl, inr, ◌⊎◌, Bool-cases, some_eq, ==_iff,
}
use fix_mon.MpmcQueue.{Queue, Pc, Move, System, Step, Reach, new_queue, update, u64, diff, intptr}
use fix_mon.MpmcQueue.Cells.{
  Cells, working, same_cell, positions_le, cur_bound, push_claims, push_writes, push_stores,
  pop_claims, pop_stores,
}

-- the position that a thread has claimed and not given back
abbrev pub owned {ℓ} : {A : Type ℓ} → Pc A → Option ℕ
owned (Pc.push_own v at) = some at
owned (Pc.push_wrote v at) = some at
owned (Pc.pop_own at) = some at
owned (Pc.pop_read at v) = some at
owned _ = none

abbrev pub Local : {A : Type 0} → ℕ → Queue A → (ℕ → ℕ) → (ℕ → ℕ) → Pc A → Type 0
Local C m stage cur Pc.idle = Unit
Local C m stage cur (Pc.push_at v at) = at ≤ m.enqueue_pos
Local C m stage cur (Pc.push_seen v at seq) =
    (at ≤ m.enqueue_pos)
    × (seq < 2 ^ 64)
    × (seq ≡ at → at ≤ cur (at % C))
    × (at < seq → at < m.enqueue_pos)
Local C m stage cur (Pc.push_own v at) = (stage at ≡ 1) × (get_elem? m.pushed at ≡ some v)
Local C m stage cur (Pc.push_wrote v at) =
    (stage at ≡ 1)
    × (get_elem? m.pushed at ≡ some v)
    × (get_elem? m.pushed at ≡ some (m.content (at % C)))
Local C m stage cur (Pc.pop_at at) = at ≤ m.dequeue_pos
Local C m stage cur (Pc.pop_seen at seq) =
    (at ≤ m.dequeue_pos)
    × (seq < 2 ^ 64)
    × (seq ≡ at + 1 → 2 ≤ stage at)
    × (at + 1 < seq → at < m.dequeue_pos)
Local C m stage cur (Pc.pop_own at) =
    (stage at ≡ 3) × (get_elem? m.pushed at ≡ some (m.content (at % C)))
Local C m stage cur (Pc.pop_read at v) = (stage at ≡ 3) × (get_elem? m.pushed at ≡ some v)

pub record Inv {A : Type 0} (C n : ℕ) (m : Queue A) (pc : ℕ → Pc A) : Type 0 where
  pub stage : ℕ → ℕ
  pub cur : ℕ → ℕ
  pub cells : Cells C m stage cur
  pub local : (i : ℕ) → Local C m stage cur (pc i)
  pub unique : (i j p : ℕ) → owned (pc i) ≡ some p → owned (pc j) ≡ some p → i ≡ j
  pub early : m.enqueue_pos ≤ n

-- what another thread may do without disturbing a thread at `x`
pub record Calm {A : Type 0} (C : ℕ) (m m' : Queue A) (stage stage' cur cur' : ℕ → ℕ) (x : Pc A)
    : Type 0 where
  pub enqueues : m.enqueue_pos ≤ m'.enqueue_pos
  pub dequeues : m.dequeue_pos ≤ m'.dequeue_pos
  pub turns : (i : ℕ) → cur i ≤ cur' i
  pub stages : (p : ℕ) → 2 ≤ stage p → 2 ≤ stage' p
  pub mine :
      (p : ℕ) → owned x ≡ some p → (stage' p ≡ stage p) × (m'.content (p % C) ≡ m.content (p % C))
  pub history : (p : ℕ) (v : A) → get_elem? m.pushed p ≡ some v → get_elem? m'.pushed p ≡ some v

Local-Calm :
    {A : Type 0} {C : ℕ} {m m' : Queue A} {stage stage' cur cur' : ℕ → ℕ} (x : Pc A)
    → Calm C m m' stage stage' cur cur' x
    → Local C m stage cur x
    → Local C m' stage' cur' x
Local-Calm Pc.idle k h = tt
Local-Calm (Pc.push_at v at) k h = omega (arith, k.enqueues)
Local-Calm {C} (Pc.push_seen v at seq) k h = (
  omega (arith, k.enqueues, h.0),
  h.1,
  λ e. omega (arith, h.2 e, k.turns (at % C)),
  λ e. omega (arith, h.3 e, k.enqueues),
)
Local-Calm (Pc.push_own v at) k h = ((k.mine at refl).0 ∙ h.0, k.history at v h.1)
Local-Calm {C} {m} (Pc.push_wrote v at) k h = (
  (k.mine at refl).0 ∙ h.0,
  k.history at v h.1,
  k.history at (m.content (at % C)) h.2 ∙ ap (λ t. some t) (sym (k.mine at refl).1),
)
Local-Calm (Pc.pop_at at) k h = omega (arith, k.dequeues)
Local-Calm (Pc.pop_seen at seq) k h = (
  omega (arith, k.dequeues, h.0),
  h.1,
  λ e. k.stages at (h.2 e),
  λ e. omega (arith, h.3 e, k.dequeues),
)
Local-Calm {C} {m} (Pc.pop_own at) k h = (
  (k.mine at refl).0 ∙ h.0,
  k.history at (m.content (at % C)) h.1 ∙ ap (λ t. some t) (sym (k.mine at refl).1),
)
Local-Calm (Pc.pop_read at v) k h = ((k.mine at refl).0 ∙ h.0, k.history at v h.1)

-- a difference of 0 is an equation
pub diff_zero : (a b : ℕ) → a < 2 ^ 64 → b < 2 ^ 64 → diff a b ≡ pos 0 → a ≡ b
unfolding ◌-ℤ◌
diff_zero a b h k e = ground arith

-- and a positive one an order
pub diff_positive : (a b : ℕ) → b < 2 ^ 63 → pos 0 <ℤ diff a b → b < a
unfolding ◌-ℤ◌
diff_positive a b h e = ground arith

pub differs : (i j : ℕ) → (i == j) ≡ false → i ≢ j
differs i j e f = ground arith

module _ {A : Type 0} {C n : ℕ} {m : Queue A} {pc : ℕ → Pc A} (inv : Inv C n m pc) (i : ℕ) where
  open inv use {stage, cur, cells, local, unique, early}

  -- Thread `i` goes on to `p'`: the invariant, put together.
  pub together :
      (stage' cur' : ℕ → ℕ) (m' : Queue A) (p' : Pc A)
      → Cells C m' stage' cur'
      → Local C m' stage' cur' p'
      → ((j : ℕ) → (i == j) ≡ false → Calm C m m' stage stage' cur cur' (pc j))
      → ((j p : ℕ) → (i == j) ≡ false → owned p' ≡ some p → owned (pc j) ≢ some p)
      → m'.enqueue_pos ≤ suc n
      → Inv C (suc n) m' (update pc i p')
  together stage' cur' m' p' cells' own calm apart early' = record {
    stage = stage';
    cur = cur';
    cells = cells';
    local = λ j. elim (Bool-cases (i == j)) [
      | inl e ↦ rw e own
      | inr e ↦ rw e (Local-Calm (pc j) (calm j e) (local j))
    ];
    unique = λ j k p a b. elim (Bool-cases (i == j)) [
      | inl e ↦ elim (Bool-cases (i == k)) [
        | inl f ↦ sym ((==_iff i j).0 e) ∙ (==_iff i k).0 f
        | inr f ↦ absurd (apart k p f (rw e at a) (rw f at b))
      ]
      | inr e ↦ elim (Bool-cases (i == k)) [
        | inl f ↦ absurd (apart j p e (rw f at b) (rw e at a))
        | inr f ↦ unique j k p (rw e at a) (rw f at b)
      ]
    ];
    early = early';
  }

  -- An access that leaves shared memory as it is.
  pub only_local :
      (p' : Pc A)
      → Local C m stage cur p'
      → ((q : ℕ) → owned p' ≡ some q → owned (pc i) ≡ some q)
      → Inv C (suc n) m (update pc i p')
  only_local p' own same =
      together stage cur m p' cells own
        (λ j e. record {
          enqueues = omega arith;
          dequeues = omega arith;
          turns = λ k. omega arith;
          stages = λ p h. h;
          mine = λ p o. (refl, refl);
          history = λ p v h. h;
        })
        (λ j p e o o'. differs i j e (unique i j p (same p o) o')) (omega (arith, early))

  -- the positions of the others are not the one that thread `i` has
  pub others :
      (j q p : ℕ)
      → (i == j) ≡ false
      → owned (pc i) ≡ some q
      → owned (pc j) ≡ some p
      → (q == p) ≡ false
  others j q p e a b = elim (Bool-cases (q == p)) [
    | inl f ↦ absurd (differs i j e (unique i j p (a ∙ ap (λ t. some t) ((==_iff q p).0 f)) b))
    | inr f ↦ f
  ]

  -- what a position that a thread has tells of its stage
  pub working_stage :
      (x : Pc A) (p : ℕ)
      → Local C m stage cur x
      → owned x ≡ some p
      → ((stage p ≡ 1) ⊎ (stage p ≡ 3))
  working_stage (Pc.push_own v at) p h e = inl (ap stage (some_eq (sym e)) ∙ h.0)
  working_stage (Pc.push_wrote v at) p h e = inl (ap stage (some_eq (sym e)) ∙ h.0)
  working_stage (Pc.pop_own at) p h e = inr (ap stage (some_eq (sym e)) ∙ h.0)
  working_stage (Pc.pop_read at v) p h e = inr (ap stage (some_eq (sym e)) ∙ h.0)
  working_stage _ p h e = cc
