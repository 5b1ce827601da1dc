-- ===== src/EventStore/Tests.antt =====
-- Runs of a store in front of a database in memory.
use fix_mon.Prelude.{some, [], ◌∷◌, eq_text, ◌≡◌, refl, arith}
use fix_mon.Event.{default_event}
use fix_mon.EventStore.{EventStore, new_store, stage, flush, insert_rows}
use fix_mon.EventStore.Memory.{Rows, in_memory, in_memory-IsSqlite}
use fix_mon.EventStore.Accounts.{IsFlushed, flush-IsFlushed}

-- a store with two events staged
abbrev holding : Rows → EventStore (Rows × Rows)
holding rs = record new_store { db = some (rs, rs); staged = default_event ∷ default_event ∷ [] }

holding_stage :
    stage default_event (stage default_event (record new_store { db = some ([], []) })) ≡ holding []
unfolding stage
holding_stage = refl

-- the COMMIT of the third row fails: the batch is rolled back
flush-IsFlushed_example :
    IsFlushed
      (λ d. d.0)
      (holding ([] ∷ []))
      (flush in_memory (holding ([] ∷ []))).0
      (flush in_memory (holding ([] ∷ []))).1
flush-IsFlushed_example =
    flush-IsFlushed in_memory (λ d. d.0) in_memory-IsSqlite (holding ([] ∷ [])) ([] ∷ [], [] ∷ [])
      refl (omega arith) (omega arith)

flush_counts :
    ((flush in_memory (holding [])).1 ≡ 2)
    × ((flush in_memory (holding ([] ∷ []))).1 ≡ 0)
    × ((flush in_memory (holding ([] ∷ []))).0.write_errors ≡ 1)
unfolding flush insert_rows eq_text
flush_counts = (refl, refl, refl)
