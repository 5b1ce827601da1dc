-- ===== src/Adapters/Polling.antt =====
-- `start`, `stop` and `run` of the two adapters (fix_monitor/src/message_log_adapter.cpp and
-- event_log_adapter.cpp), which are the same but for the callback. The thread is what it does: polls
-- one after the other while `running_` is set, each on the file it finds, with the clock as it stands
-- at each line.
use fix_mon.Prelude.{
  ℕ, suc, ℤ, Bool, true, false, not, Option, none, some, List, [], ◌∷◌, Bytes, if◌then◌else◌,
}
use fix_mon.TailReader
use fix_mon.TailReader.{File, TailReader, new_tail}
use fix_mon.Adapters.MessageLog.{Progress}

-- the members of an adapter that change
pub record Adapter : Type 0 where
  pub running : Bool
  pub has_thread : Bool
  pub reader : Option TailReader
  pub progress : Progress

-- the constructor
abbrev pub new_adapter : Adapter
new_adapter = record {
  running = false;
  has_thread = false;
  reader = none;
  progress = record { lines_read = 0; parse_errors = 0; sent = [] };
}

-- the reader is made on the file found then
unfoldable pub start : Bool → Option File → Adapter → Adapter
start from_beginning file a = if a.running then a else record a {
  running = true;
  has_thread = true;
  reader = some (new_tail from_beginning file);
}

unfoldable pub stop : Adapter → Adapter
stop a =
    if not a.running then a else record a { running = false; has_thread = false; reader = none }

-- one turn of the loop: whether `running_` is set, the file that the poll finds, and the clock at
-- the first line it delivers, the second and so on
pub record Turn : Type 0 where
  pub running : Bool
  pub file : Option File
  pub clock : ℕ → ℤ

module _ (on_line : ℤ → Bytes → Progress → Progress) where
  -- the calls of the callback in one poll
  unfoldable pub on_lines : (ℕ → ℤ) → List Bytes → Progress → Progress
  on_lines clock [] p = p
  on_lines clock (line ∷ lines) p = on_lines (λ n. clock (suc n)) lines (on_line (clock 0) line p)

  abbrev pub with_poll : Adapter → (ℕ → ℤ) → List Bytes × TailReader → Adapter
  with_poll a clock (lines, r) = record a {
    reader = some r;
    progress = on_lines clock lines a.progress;
  }

  unfoldable pub poll_once : Bool → Option File → (ℕ → ℤ) → Adapter → Adapter
  poll_once from_beginning file clock a = elim a.reader [
    | none ↦ a
    | some r ↦ with_poll a clock (TailReader.poll from_beginning file r)
  ]

  -- the loop over the turns that happen
  unfoldable pub run : Bool → List Turn → Adapter → Adapter
  run from_beginning [] a = a
  run from_beginning (t ∷ turns) a =
      let rest = run from_beginning turns (poll_once from_beginning t.file t.clock a) in
      if t.running then rest else a
