-- ===== src/Adapters/Lifecycle.antt =====
-- `start` and `stop` of the adapters (fix_monitor/src/message_log_adapter.cpp, event_log_adapter.cpp).
use fix_mon.Prelude.{
  ℕ, ◌≡◌, refl, sym, ap, ◌∙◌, ℤ, Bool, true, false, Option, none, some, List, [], ◌∷◌, Bytes,
  Bool-cases, inl, inr,
}
use fix_mon.TailReader.{TailReader, File}
use fix_mon.Adapters.MessageLog.{Progress}
use fix_mon.Adapters.Polling.{Adapter, new_adapter, start, stop, Turn, poll_once, run}

abbrev pub has_reader : Option TailReader → Bool
has_reader none = false
has_reader (some r) = true

-- it has a thread and a reader exactly while it runs
pub record IsAlive (a : Adapter) : Type 0 where
  pub joined : a.has_thread ≡ a.running
  pub reading : has_reader a.reader ≡ a.running

-- what may happen to an adapter, in any order
pub data Life (on_line : ℤ → Bytes → Progress → Progress) (b : Bool) : Adapter → Type 0 where
  made : Life on_line b new_adapter
  starts : {a : Adapter} → (file : Option File) → Life on_line b a → Life on_line b (start b file a)
  stops : {a : Adapter} → Life on_line b a → Life on_line b (stop a)
  runs :
      {a : Adapter} (turns : List Turn) → Life on_line b a → Life on_line b (run on_line b turns a)

start-IsAlive : (b : Bool) (file : Option File) (a : Adapter) → IsAlive a → IsAlive (start b file a)
unfolding start
start-IsAlive b file a h = elim (Bool-cases a.running) [
  | inl e ↦ rw e (record { joined = h.joined ∙ e; reading = h.reading ∙ e })
  | inr e ↦ rw e (record { joined = refl; reading = refl })
]

stop-IsAlive : (a : Adapter) → IsAlive a → IsAlive (stop a)
unfolding stop
stop-IsAlive a h = elim (Bool-cases a.running) [
  | inl e ↦ rw e (record { joined = refl; reading = refl })
  | inr e ↦ rw e (record { joined = h.joined ∙ e; reading = h.reading ∙ e })
]

module _ (on_line : ℤ → Bytes → Progress → Progress) (b : Bool) where
  polled :
      (a : Adapter) (reader : Option TailReader) (file : Option File) (clock : ℕ → ℤ)
      → a.reader ≡ reader
      → IsAlive a
      → IsAlive (poll_once on_line b file clock a)
  unfolding poll_once
  polled a none file clock e h =
      rw e (record { joined = h.joined; reading = sym (ap has_reader e) ∙ h.reading })
  polled a (some r) file clock e h =
      rw e (record { joined = h.joined; reading = sym (ap has_reader e) ∙ h.reading })

  run-IsAlive : (turns : List Turn) (a : Adapter) → IsAlive a → IsAlive (run on_line b turns a)
  unfolding run
  run-IsAlive [] a h = h
  run-IsAlive (t ∷ turns) a h = elim (Bool-cases t.running) [
    | inl e ↦ rw e (
        run-IsAlive turns (poll_once on_line b t.file t.clock a)
          (polled a a.reader t.file t.clock refl h))
    | inr e ↦ rw e h
  ]

-- Whatever the order of starts, stops and polls, an adapter has a thread to join and a reader
-- exactly while it runs.
pub Life-IsAlive :
    {on_line : ℤ → Bytes → Progress → Progress} {b : Bool} {a : Adapter}
    → Life on_line b a
    → IsAlive a
Life-IsAlive made = record { joined = refl; reading = refl }
Life-IsAlive {b} (starts {a} file l) = start-IsAlive b file a (Life-IsAlive l)
Life-IsAlive (stops {a} l) = stop-IsAlive a (Life-IsAlive l)
Life-IsAlive {on_line} {b} (runs {a} turns l) = run-IsAlive on_line b turns a (Life-IsAlive l)

-- a second start, or a second stop, changes nothing
pub start-start :
    (b : Bool) (f g : Option File) (a : Adapter) → start b g (start b f a) ≡ start b f a
unfolding start
start-start b f g a = elim (Bool-cases a.running) [ inl e ↦ rw e | inr e ↦ rw e ]

pub stop-stop : (a : Adapter) → stop (stop a) ≡ stop a
unfolding stop
stop-stop a = elim (Bool-cases a.running) [ inl e ↦ rw e | inr e ↦ rw e ]
