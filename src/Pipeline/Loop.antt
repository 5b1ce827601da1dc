-- ===== src/Pipeline/Loop.antt =====
-- The loop of `main` (fix_monitor/src/main.cpp), pass by pass, and what it does before and after it.
-- The clocks, the queue and the adapters are what a pass sees of them.
use fix_mon.Prelude.{
  ℕ, ◌+◌, ◌-◌, ◌*◌, ◌/◌, ℤ, pos, ◌-ℤ◌, ◌*ℤ◌, ltb_ℤ, Bool, not, ◌&&◌, List, [], ◌∷◌, is_empty,
  if◌then◌else◌,
}
use fix_mon.Event.{Event}
use fix_mon.SessionState
use fix_mon.SessionState.{SessionRegistry}
use fix_mon.SessionState.Snapshot.{SessionSnapshot}
use fix_mon.Config.Load.{AppConfig}
use fix_mon.Config.Session.{SessionConfig, session_id}
use fix_mon.EventStore.{Sqlite, EventStore, write_snapshot, purge_before, close}
use fix_mon.Pipeline.{Pipeline, Pressure, consume, tick, drain}
use fix_mon.Pipeline.Publish.{
  Doubles, SelfCounts, AdapterCounts, publish_state, publish_session_info, mirror_self, mirror_last,
}

-- What a pass of the loop sees: the events in the queue, the steady clock, the wall clock where it
-- is read, and the counters of the others.
pub record Seen : Type 0 where
  pub popped : List Event
  pub steady : ℕ  -- nanoseconds
  pub flush_now : ℤ
  pub snapshot_now : ℤ
  pub purge_now : ℤ
  pub queue_size : ℕ
  pub pressure : Pressure
  pub adapters : List AdapterCounts

-- what is kept from pass to pass
pub record MainLoop (Db : Type 0) : Type 0 where
  pub pipeline : Pipeline Db
  pub last_flush : ℕ
  pub last_snapshot : ℕ
  pub last_purge : ℕ

-- the logs of a session that are watched
unfoldable pub attached : SessionConfig → ℕ
attached sc =
    (if is_empty sc.message_log_path then 0 else 1) + (if is_empty sc.event_log_path then 0 else 1)

-- whether that many units have passed; the steady clock does not go back
abbrev pub is_due : ℤ → ℕ → ℕ → ℕ → Bool
is_due interval unit now last = not (ltb_ℤ (pos ((now - last) / unit)) interval)

module _ {Db : Type 0} (sql : Sqlite Db) (doubles : Doubles) (cfg : AppConfig) where
  -- the loop that registers the sessions
  unfoldable pub register_all : List SessionConfig → Pipeline Db → Pipeline Db
  register_all [] p = p
  register_all (sc ∷ scs) p = register_all scs (record p {
    sessions = SessionState.register_session (session_id sc) sc.heartbeat_interval p.sessions;
    metrics = publish_session_info doubles sc (attached sc) p.metrics;
  })

  -- what the loop starts with
  unfoldable pub started : ℕ → Pipeline Db → MainLoop Db
  started time p = record {
    pipeline = register_all cfg.sessions p;
    last_flush = time;
    last_snapshot = time;
    last_purge = time;
  }

  unfoldable pub consume_all : List Event → Pipeline Db → Pipeline Db
  consume_all [] p = p
  consume_all (ev ∷ evs) p = consume_all evs (consume sql cfg.batch_size ev p)

  abbrev pub self_counts : ℕ → Pressure → EventStore Db → SelfCounts
  self_counts size pressure store = record {
    queue_size = size;
    dropped = pressure.dropped;
    queue_waits = pressure.waits;
    rows_written = store.rows_written;
    write_errors = store.write_errors;
    rows_purged = store.rows_purged;
  }

  -- the gauges and counters at a timed flush
  unfoldable pub report : Seen → Pipeline Db → Pipeline Db
  report w p = record p {
    metrics =
        mirror_self doubles (self_counts w.queue_size w.pressure p.store) w.adapters
          (publish_state doubles w.flush_now (SessionState.snapshot p.sessions) p.metrics);
  }

  unfoldable pub timed_flush : Seen → MainLoop Db → MainLoop Db
  timed_flush w m =
      if is_due cfg.batch_flush_ms 1000000 w.steady m.last_flush
      then record m { pipeline = report w (tick sql w.flush_now m.pipeline); last_flush = w.steady }
      else m

  unfoldable pub write_snapshots : ℤ → List SessionSnapshot → EventStore Db → EventStore Db
  write_snapshots now [] s = s
  write_snapshots now (snap ∷ snaps) s = write_snapshots now snaps (write_snapshot sql snap now s)

  unfoldable pub snapshot_all : ℤ → Pipeline Db → Pipeline Db
  snapshot_all now p = record p {
    store = write_snapshots now (SessionState.snapshot p.sessions) p.store;
  }

  unfoldable pub timed_snapshot : Seen → MainLoop Db → MainLoop Db
  timed_snapshot w m =
      if is_due cfg.snapshot_interval_s 1000000000 w.steady m.last_snapshot
      then record m { pipeline = snapshot_all w.snapshot_now m.pipeline; last_snapshot = w.steady }
      else m

  abbrev pub cutoff : ℤ → ℤ
  cutoff now = now -ℤ (cfg.retention_days *ℤ pos (86400 * 1000000000))

  unfoldable pub timed_purge : Seen → MainLoop Db → MainLoop Db
  timed_purge w m =
      if ltb_ℤ (pos 0) cfg.retention_days && is_due (pos 60) 60000000000 w.steady m.last_purge
      then (let p = m.pipeline in
          record m {
            pipeline = record p { store = (purge_before sql (cutoff w.purge_now) p.store).0 };
            last_purge = w.steady;
          })
      else m

  -- the body of the loop
  unfoldable pub pass : Seen → MainLoop Db → MainLoop Db
  pass w m =
      timed_purge w
        (timed_snapshot w (timed_flush w (record m { pipeline = consume_all w.popped m.pipeline })))

  unfoldable pub passes : List Seen → MainLoop Db → MainLoop Db
  passes [] m = m
  passes (w ∷ ws) m = passes ws (pass w m)

  -- after the loop: what is left in the queue, the last snapshots and counters, and `close`
  unfoldable pub shut_down : List Event → ℤ → Pressure → Pipeline Db → Pipeline Db
  shut_down evs now pressure p =
      let q = snapshot_all now (drain sql evs p) in
      record q {
        metrics = mirror_last doubles (self_counts 0 pressure q.store) q.metrics;
        store = close sql q.store;
      }
