-- ===== src/MpmcQueue/Tests.antt =====
-- Runs of the event queue: two cells, one thread that pushes and one that pops.
use fix_mon.Prelude.{
  ℕ, ◌≤◌, ◌<◌, ◌<ℤ◌, ◌≡◌, refl, some, [], ◌∷◌, length, get_elem?, arith, pos, ◌-ℤ◌,
}
use fix_mon.MpmcQueue.{
  Queue, Pc, Move, System, Step, by, Reach, start, later, new_queue, update, diff, size_approx,
}
use fix_mon.MpmcQueue.Refine.{
  waiting, Fifo, waiting-le-capacity, Step-refines, pop_read_lem, push_late_lem,
}

abbrev no_calls : ℕ → Pc ℕ
no_calls i = Pc.idle

abbrev empty : System ℕ
empty = record { mem = new_queue 0; pc = no_calls }

-- the memory once 7 has its place, once it is moved in, and once the cell is published
abbrev claimed : Queue ℕ
claimed = record (new_queue 0) { enqueue_pos = 1; pushed = 7 ∷ [] }

abbrev moved_in : Queue ℕ
moved_in = record claimed { content = update claimed.content 0 7 }

abbrev published : Queue ℕ
published = record moved_in { seq = update moved_in.seq 0 1 }

abbrev taken : Queue ℕ
taken = record published { dequeue_pos = 1 }

abbrev go : System ℕ → ℕ → Queue ℕ → Pc ℕ → System ℕ
go s i m p = record { mem = m; pc = update s.pc i p }

abbrev seen : System ℕ
seen = go (go empty 0 (new_queue 0) (Pc.push_at 7 0)) 0 (new_queue 0) (Pc.push_seen 7 0 0)

abbrev after_push : System ℕ
after_push =
    go (go (go seen 0 claimed (Pc.push_own 7 0)) 0 moved_in (Pc.push_wrote 7 0)) 0 published Pc.idle

abbrev after_pop : System ℕ
after_pop =
    go
      (go (go (go after_push 1 published (Pc.pop_at 0)) 1 published (Pc.pop_seen 0 1)) 1 taken
        (Pc.pop_own 0))
      1 taken (Pc.pop_read 0 7)

abbrev run_seen : Reach 2 0 2 seen
run_seen = later (later start (by 0 (Move.push 7))) (by 0 Move.push_load)

expected : (diff 0 0 ≡ pos 0) × (diff 1 1 ≡ pos 0)
unfolding ◌-ℤ◌
expected = (refl, refl)

abbrev wins : Step 2 seen (go seen 0 claimed (Pc.push_own 7 0))
wins = by 0 (Move.push_win expected.0 refl)

abbrev run_push : Reach 2 0 5 after_push
run_push = later (later (later run_seen wins) (by 0 Move.push_write)) (by 0 Move.push_store)

abbrev run_pop : Reach 2 0 9 after_pop
run_pop =
    later
      (later (later (later run_push (by 1 Move.pop)) (by 1 Move.pop_load))
        (by 1 (Move.pop_win expected.1 refl)))
      (by 1 Move.pop_take)

waiting-le-capacity_example :
    (length (waiting after_push.mem) ≤ 2)
    × (length (waiting after_push.mem)
        ≡ size_approx after_push.mem.enqueue_pos after_push.mem.dequeue_pos)
waiting-le-capacity_example = waiting-le-capacity 0 (omega arith) (omega arith) run_push

Step-refines_example : Fifo 2 (waiting seen.mem) (waiting claimed)
Step-refines_example = Step-refines 0 (omega arith) (omega arith) run_seen wins

pop_read_lem_example :
    (get_elem? after_pop.mem.pushed 0 ≡ some 7)
    × (0 < after_pop.mem.dequeue_pos)
    × ((j : ℕ) (w : ℕ) → after_pop.pc j ≡ Pc.pop_read 0 w → 1 ≡ j)
pop_read_lem_example = pop_read_lem 0 (omega arith) (omega arith) run_pop 1 0 7 refl

waiting_values : (waiting after_push.mem ≡ 7 ∷ []) × (waiting after_pop.mem ≡ [])
waiting_values = (refl, refl)

abbrev overtaken : System ℕ
overtaken =
    go (go (go empty 2 (new_queue 0) (Pc.push_at 8 0)) 0 (new_queue 0) (Pc.push_at 7 0)) 0
      (new_queue 0) (Pc.push_seen 7 0 0)

-- another thread that had loaded the same position, once the first one has published
abbrev late : System ℕ
late =
    go
      (go (go (go overtaken 0 claimed (Pc.push_own 7 0)) 0 moved_in (Pc.push_wrote 7 0)) 0 published
        Pc.idle)
      2 published (Pc.push_seen 8 0 1)

abbrev run_late : Reach 2 0 7 late
run_late =
    later
      (later
        (later
          (later
            (later (later (later start (by 2 (Move.push 8))) (by 0 (Move.push 7)))
              (by 0 Move.push_load))
            (by 0 (Move.push_win expected.0 refl)))
          (by 0 Move.push_write))
        (by 0 Move.push_store))
      (by 2 Move.push_load)

ahead : pos 0 <ℤ diff 1 0
unfolding ◌-ℤ◌
ahead = ground arith

push_late_lem_example : 0 < late.mem.enqueue_pos
push_late_lem_example = push_late_lem 0 (omega arith) (omega arith) run_late 2 0 1 8 refl ahead
