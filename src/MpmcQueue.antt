-- ===== src/MpmcQueue.antt =====
-- fix_monitor/include/fixmon/mpmc_queue.hpp: the bounded queue between the adapter threads and the
-- pipeline, one access to shared memory at a time. Any number of threads push and pop, in any
-- interleaving; the accesses are taken in one order, as the acquire and release on the sequence
-- numbers of the cells has them.
pub mod Cells
pub mod Threads
pub mod Refine
mod Tests
use fix_mon.Prelude.{
  suc, ℕ, ◌+◌, ◌-◌, ◌%◌, ◌^◌, ℤ, pos, negsuc, ◌-ℤ◌, ltb, ◌==◌, if◌then◌else◌, ◌≡◌, ◌<ℤ◌, List, [],
  ◌∷◌, ◌++◌,
}

abbrev pub update {ℓ} : {A : Type ℓ} → (ℕ → A) → ℕ → A → ℕ → A
update f i a j = if i == j then a else f j

abbrev u64 : ℕ → ℕ
u64 n = n % 2 ^ 64

-- the cast to `intptr_t`
abbrev intptr : ℕ → ℤ
intptr w = if ltb w (2 ^ 63) then pos w else negsuc (2 ^ 64 - w - 1)

abbrev pub diff : ℕ → ℕ → ℤ
diff seq position = intptr seq -ℤ intptr position

module _ {ℓ} (A : Type ℓ) where
  -- The shared memory: `buffer_` as two families over the cells. `pushed` is history: the values
  -- whose place has been claimed, in the order of the claims.
  pub record Queue : Type ℓ where
    pub seq : ℕ → ℕ
    pub content : ℕ → A
    pub enqueue_pos : ℕ
    pub dequeue_pos : ℕ
    pub pushed : List A

  -- Where a thread stands, with the local variables that are live there.
  pub data Pc : Type ℓ where
    idle : Pc  -- in neither call
    push_at : A → ℕ → Pc  -- `pos` loaded, head of the loop of `try_push`
    push_seen : A → ℕ → ℕ → Pc  -- `seq` loaded
    push_own : A → ℕ → Pc  -- the place claimed
    push_wrote : A → ℕ → Pc  -- the value moved in
    pop_at : ℕ → Pc
    pop_seen : ℕ → ℕ → Pc
    pop_own : ℕ → Pc
    pop_read : ℕ → A → Pc  -- the value moved out

-- The constructor; `blank` is the default value that the cells hold.
abbrev pub new_queue {ℓ} : {A : Type ℓ} → A → Queue A
new_queue blank = record {
  seq = λ i. i;
  content = λ i. blank;
  enqueue_pos = 0;
  dequeue_pos = 0;
  pushed = [];
}

-- One access by one thread. `pos & mask_` is `pos % capacity`, the capacity being a power of two.
-- A weak compare-exchange may fail although the position is the one expected.
pub data Move {ℓ} {A : Type ℓ} (capacity : ℕ) (m : Queue A) : Pc A → Queue A → Pc A → Type ℓ where
  push : (v : A) → Move capacity m idle m (push_at v m.enqueue_pos)
  push_load :
      {v : A} {at : ℕ} → Move capacity m (push_at v at) m (push_seen v at (m.seq (at % capacity)))
  push_win :
      {v : A} {at seq : ℕ}
      → diff seq at ≡ pos 0
      → m.enqueue_pos ≡ at
      → Move capacity m
          (push_seen v at seq)
          (record m { enqueue_pos = u64 (at + 1); pushed = m.pushed ++ v ∷ [] })
          (push_own v at)
  push_lose :
      {v : A} {at seq : ℕ}
      → diff seq at ≡ pos 0
      → Move capacity m (push_seen v at seq) m (push_at v m.enqueue_pos)
  push_full :
      {v : A} {at seq : ℕ} → diff seq at <ℤ pos 0 → Move capacity m (push_seen v at seq) m idle
  push_late :
      {v : A} {at seq : ℕ}
      → pos 0 <ℤ diff seq at
      → Move capacity m (push_seen v at seq) m (push_at v m.enqueue_pos)
  push_write :
      {v : A} {at : ℕ}
      → Move capacity m
          (push_own v at)
          (record m { content = update m.content (at % capacity) v })
          (push_wrote v at)
  push_store :
      {v : A} {at : ℕ}
      → Move capacity m
          (push_wrote v at)
          (record m { seq = update m.seq (at % capacity) (u64 (at + 1)) })
          idle
  pop : Move capacity m idle m (pop_at m.dequeue_pos)
  pop_load : {at : ℕ} → Move capacity m (pop_at at) m (pop_seen at (m.seq (at % capacity)))
  pop_win :
      {at seq : ℕ}
      → diff seq (u64 (at + 1)) ≡ pos 0
      → m.dequeue_pos ≡ at
      → Move capacity m (pop_seen at seq) (record m { dequeue_pos = u64 (at + 1) }) (pop_own at)
  pop_lose :
      {at seq : ℕ}
      → diff seq (u64 (at + 1)) ≡ pos 0
      → Move capacity m (pop_seen at seq) m (pop_at m.dequeue_pos)
  pop_empty :
      {at seq : ℕ} → diff seq (u64 (at + 1)) <ℤ pos 0 → Move capacity m (pop_seen at seq) m idle
  pop_late :
      {at seq : ℕ}
      → pos 0 <ℤ diff seq (u64 (at + 1))
      → Move capacity m (pop_seen at seq) m (pop_at m.dequeue_pos)
  pop_take : {at : ℕ} → Move capacity m (pop_own at) m (pop_read at (m.content (at % capacity)))
  pop_store :
      {at : ℕ} {v : A}
      → Move capacity m
          (pop_read at v)
          (record m { seq = update m.seq (at % capacity) (u64 (at + capacity)) })
          idle

pub record System {ℓ} (A : Type ℓ) : Type ℓ where
  pub mem : Queue A
  pub pc : ℕ → Pc A

pub data Step {ℓ} {A : Type ℓ} (capacity : ℕ) (s : System A) : System A → Type ℓ where
  by :
      (i : ℕ) {m : Queue A} {p : Pc A}
      → Move capacity s.mem (s.pc i) m p
      → Step capacity s (record { mem = m; pc = update s.pc i p })

-- what a run of so many steps can lead to
pub data Reach {ℓ} {A : Type ℓ} (capacity : ℕ) (blank : A) : ℕ → System A → Type ℓ where
  start : Reach capacity blank 0 (record { mem = new_queue blank; pc = λ i. idle })
  later :
      {n : ℕ} {s t : System A}
      → Reach capacity blank n s
      → Step capacity s t
      → Reach capacity blank (suc n) t

-- `size_approx`, on the two positions that it loads
unfoldable pub size_approx : ℕ → ℕ → ℕ
size_approx e d = if ltb d e then e - d else 0
