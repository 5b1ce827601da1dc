-- ===== src/EventStore/Memory.antt =====
-- A database in memory, for runs of the store: the table of events, and what it was when the last
-- transaction began. Its COMMIT fails once the table has more than two rows.
use fix_mon.Prelude.{
  Bool, true, some, List, [], ◌∷◌, ◌++◌, Bytes, codes, length, leb, if◌then◌else◌, eq_text, refl,
}
use fix_mon.EventStore.{Table, Sqlite}
use fix_mon.EventStore.Rows.{Value}
use fix_mon.EventStore.Accounts.{IsSqlite}

abbrev pub Rows : Type 0
Rows = List (List Value)

abbrev run : Bytes → Rows × Rows → Bool × (Rows × Rows)
run sql (now, before) =
    if eq_text sql (codes "BEGIN IMMEDIATE;")
    then (true, (now, now))
    else if eq_text sql (codes "ROLLBACK;")
    then (true, (before, before))
    else (leb (length now) 2, (now, before))

abbrev put : Table → List Value → Rows × Rows → Bool × (Rows × Rows)
put Table.events r (now, before) = (true, (now ++ r ∷ [], before))
put Table.session_snapshots r d = (true, d)

abbrev pub in_memory : Sqlite (Rows × Rows)
in_memory = record {
  open_db = λ p. some ([], []);
  exec = run;
  insert = put;
  delete_before = λ t c d. (some 0, d);
}

pub in_memory-IsSqlite : IsSqlite in_memory (λ d. d.0)
unfolding eq_text
in_memory-IsSqlite = record {
  begun = λ d e. refl;
  inserted = λ r d e. refl;
  committed = λ d e. refl;
}
