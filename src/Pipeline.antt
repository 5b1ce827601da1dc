-- ===== src/Pipeline.antt =====
-- fix_monitor/src/main.cpp: the sink that the adapters feed, what the consumer makes of an event, the
-- end of a run, and in the children the passes of the main loop and the program up to it.
pub mod Series
pub mod Drained
pub mod Sink
pub mod Arguments
pub mod Json
pub mod Quoting
pub mod Publish
pub mod Loop
pub mod Scrapable
pub mod Scraped
pub mod Counting
pub mod Printed
pub mod Startup
pub mod Orderly
pub mod EndToEnd
mod Tests
use fix_mon.Prelude.{
  ℕ, zero, suc, ◌+◌, ◌%◌, ◌^◌, ℤ, Bool, true, false, List, [], ◌∷◌, length, leb, if◌then◌else◌,
}
use fix_mon.Event.{Event}
use fix_mon.SessionState
use fix_mon.SessionState.{SessionRegistry}
use fix_mon.Metrics.{MetricRegistry}
use fix_mon.EventStore.{Sqlite, EventStore, stage, flush}
use Series.{update_metrics}

-- `queue_waits` and `dropped`, and how many events the queue has taken
pub record Pressure : Type 0 where
  pub delivered : ℕ
  pub waits : ℕ
  pub dropped : ℕ

abbrev accepted : Pressure → Pressure
accepted p = record p { delivered = p.delivered + 1 }

abbrev given_up : Pressure → Pressure
given_up p = record p { dropped = (p.dropped + 1) % 2 ^ 64 }

-- The rounds of the wait: whether the stop flag is seen and whether the next try is accepted.
unfoldable pub wait_rounds : ℕ → (ℕ → Bool) → (ℕ → Bool) → Pressure → Pressure
wait_rounds zero stop try_push p = given_up p
wait_rounds (suc n) stop try_push p =
    let rest = wait_rounds n (λ i. stop (suc i)) (λ i. try_push (suc i)) p in
    if stop 0 then given_up p else if try_push 0 then accepted p else rest

-- The sink for one event: `try_push 0` is the first try, `try_push (i + 1)` the one in round `i`.
unfoldable pub sink : ℕ → (ℕ → Bool) → (ℕ → Bool) → Pressure → Pressure
sink wait_ms stop try_push p =
    if try_push 0
    then accepted p
    else wait_rounds wait_ms stop (λ i. try_push (suc i))
        (record p { waits = (p.waits + 1) % 2 ^ 64 })

pub record Pipeline (Db : Type 0) : Type 0 where
  pub sessions : SessionRegistry
  pub metrics : MetricRegistry
  pub store : EventStore Db

-- what the loop of the consumer does next: an event from the queue, or the timed work at `now`
pub data Action : Type 0 where
  pops : Event → Action
  ticks : ℤ → Action

module _ {Db : Type 0} (sql : Sqlite Db) where
  -- the body of the loop at the end of a run
  unfoldable pub take_in : Event → Pipeline Db → Pipeline Db
  take_in ev p =
      let applied = SessionState.apply ev p.sessions in
      record {
        sessions = applied.0;
        metrics = update_metrics ev applied.1 p.metrics;
        store = stage ev p.store;
      }

  -- `flush` if the batch is full
  unfoldable pub flush_full : ℕ → Pipeline Db → Pipeline Db
  flush_full batch_size p =
      if leb batch_size (length p.store.staged)
      then record p { store = (flush sql p.store).0 }
      else p

  -- the body of the loop over the queue
  unfoldable pub consume : ℕ → Event → Pipeline Db → Pipeline Db
  consume batch_size ev p = flush_full batch_size (take_in ev p)

  -- the timed work, as far as it changes the store and the sessions
  unfoldable pub tick : ℤ → Pipeline Db → Pipeline Db
  tick now p = record p {
    store = (flush sql p.store).0;
    sessions = SessionState.evaluate_staleness now p.sessions;
  }

  unfoldable pub act : ℕ → Action → Pipeline Db → Pipeline Db
  act batch_size (Action.pops ev) p = consume batch_size ev p
  act batch_size (Action.ticks now) p = tick now p

  unfoldable pub act_all : ℕ → List Action → Pipeline Db → Pipeline Db
  act_all batch_size [] p = p
  act_all batch_size (a ∷ acts) p = act_all batch_size acts (act batch_size a p)

  unfoldable pub take_all : List Event → Pipeline Db → Pipeline Db
  take_all [] p = p
  take_all (ev ∷ evs) p = take_all evs (take_in ev p)

  -- what is left in the queue at shutdown, and the last flush
  unfoldable pub drain : List Event → Pipeline Db → Pipeline Db
  drain evs p = let q = take_all evs p in record q { store = (flush sql q.store).0 }
