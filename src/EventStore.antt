-- ===== src/EventStore.antt =====
-- fix_monitor/src/event_store.cpp and include/fixmon/event_store.hpp: the store of events in a
-- database of SQLite. The library is a parameter (`Sqlite`): a type of databases and what each call
-- makes of one. That `open` failed half-way is its result, and the program ends there.
pub mod Rows
pub mod Accounts
pub mod Memory
mod Tests
use fix_mon.Prelude.{
  ℕ, ◌+◌, ◌%◌, ◌^◌, ℤ, Bool, true, false, Option, none, some, List, [], ◌∷◌, ◌++◌, Bytes, codes,
  is_empty, if◌then◌else◌,
}
use fix_mon.Event.{Event}
use fix_mon.SessionState.Snapshot.{SessionSnapshot, inc64}
use Rows.{Value, event_row, snapshot_row}

pub data Table : Type 0 where
  events session_snapshots : Table

-- The calls of the library, on a database that is open.
pub record Sqlite (Db : Type 0) : Type 0 where
  pub open_db : Bytes → Option Db  -- with the settings, the schema and the two statements
  pub exec : Bytes → Db → Bool × Db  -- whether it went well
  pub insert : Table → List Value → Db → Bool × Db  -- the prepared statement, bound and stepped
  pub delete_before : Table → ℤ → Db → Option ℕ × Db  -- how many rows went; `none` on an error

pub record EventStore (Db : Type 0) : Type 0 where
  pub db : Option Db
  pub staged : List Event
  pub rows_written : ℕ
  pub write_errors : ℕ
  pub rows_purged : ℕ

-- what a loop over rows has done to the database, and its counts
pub record Batch (Db : Type 0) : Type 0 where
  pub db : Db
  pub written : ℕ
  pub errors : ℕ

-- the constructor
abbrev pub new_store : {Db : Type 0} → EventStore Db
new_store = record { db = none; staged = []; rows_written = 0; write_errors = 0; rows_purged = 0 }

unfoldable pub stage : {Db : Type 0} → Event → EventStore Db → EventStore Db
stage ev s = record s { staged = s.staged ++ ev ∷ [] }

abbrev pub count_row : {Db : Type 0} → Batch Db → Bool × Db → Batch Db
count_row b (true, d) = record b { db = d; written = b.written + 1 }
count_row b (false, d) = record b { db = d; errors = inc64 b.errors }

module _ {Db : Type 0} (sql : Sqlite Db) where
  unfoldable pub open_store : Bytes → EventStore Db → Bool × EventStore Db
  open_store path s = elim (sql.open_db path) [
    | none ↦ (false, s)
    | some d ↦ (true, record s { db = some d })
  ]

  unfoldable pub insert_rows : List Event → Batch Db → Batch Db
  insert_rows [] b = b
  insert_rows (ev ∷ evs) b =
      insert_rows evs (count_row b (sql.insert Table.events (event_row ev) b.db))

  -- after COMMIT: kept, or rolled back
  abbrev pub settle_batch : EventStore Db → Batch Db → Bool × Db → EventStore Db × ℕ
  settle_batch s b (true, d) = (
    record s {
      db = some d;
      staged = [];
      rows_written = (s.rows_written + b.written) % 2 ^ 64;
      write_errors = b.errors;
    },
    b.written,
  )
  settle_batch s b (false, d) = (
    record s {
      db = some (sql.exec (codes "ROLLBACK;") d).1;
      staged = [];
      write_errors = inc64 b.errors;
    },
    0,
  )

  -- after BEGIN
  abbrev pub write_batch : EventStore Db → Bool × Db → EventStore Db × ℕ
  write_batch s (true, d) =
      let b = insert_rows s.staged (record { db = d; written = 0; errors = s.write_errors }) in
      settle_batch s b (sql.exec (codes "COMMIT;") b.db)
  write_batch s (false, d) =
      (record s { db = some d; staged = []; write_errors = inc64 s.write_errors }, 0)

  abbrev pub flush_open : EventStore Db → Db → EventStore Db × ℕ
  flush_open s d =
      if is_empty s.staged then (s, 0) else write_batch s (sql.exec (codes "BEGIN IMMEDIATE;") d)

  -- The store afterwards, and the rows written.
  unfoldable pub flush : EventStore Db → EventStore Db × ℕ
  flush s = elim s.db [ none ↦ (s, 0) | some d ↦ flush_open s d ]

  unfoldable pub close : EventStore Db → EventStore Db
  close s = record (flush s).0 { db = none }

  abbrev with_snapshot : EventStore Db → Bool × Db → EventStore Db
  with_snapshot s (true, d) = record s { db = some d }
  with_snapshot s (false, d) = record s { db = some d; write_errors = inc64 s.write_errors }

  unfoldable pub write_snapshot : SessionSnapshot → ℤ → EventStore Db → EventStore Db
  write_snapshot snap ts s = elim s.db [
    | none ↦ s
    | some d ↦ with_snapshot s (sql.insert Table.session_snapshots (snapshot_row snap ts) d)
  ]

  abbrev counted_rows : Option ℕ → ℕ
  counted_rows none = 0
  counted_rows (some n) = n

  abbrev refused_rows : Option ℕ → Bool
  refused_rows none = true
  refused_rows (some n) = false

  -- The two deletions in one transaction: the database, the rows removed, and whether one failed.
  -- What BEGIN and COMMIT answer is ignored.
  unfoldable pub purge_rows : ℤ → Db → Db × ℕ × Bool
  purge_rows cutoff d =
      let first = sql.delete_before Table.events cutoff (sql.exec (codes "BEGIN IMMEDIATE") d).1 in
      let second = sql.delete_before Table.session_snapshots cutoff first.1 in
      (
        (sql.exec (codes "COMMIT") second.1).1,
        counted_rows first.0 + counted_rows second.0,
        (if refused_rows first.0 then true else refused_rows second.0),
      )

  abbrev with_purged : EventStore Db → Db × ℕ × Bool → EventStore Db × ℕ × Bool
  with_purged s (d, removed, failed) =
      (record s { db = some d; rows_purged = (s.rows_purged + removed) % 2 ^ 64 }, removed, failed)

  -- The store afterwards, the rows removed, and whether `err` is set.
  unfoldable pub purge_before : ℤ → EventStore Db → EventStore Db × ℕ × Bool
  purge_before cutoff s =
      let t = (flush s).0 in
      elim t.db [ none ↦ (s, 0, false) | some d ↦ with_purged t (purge_rows cutoff d) ]
