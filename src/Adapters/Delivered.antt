-- ===== src/Adapters/Delivered.antt =====
-- From the bytes of a log to the calls of the callback: the loop of `run` over the tail reader
-- (fix_monitor/src/message_log_adapter.cpp, event_log_adapter.cpp and tail_reader.cpp).
use fix_mon.Prelude.{
  ℕ, suc, ◌≡◌, refl, ap, subst, ◌∙◌, ℤ, Bool, true, Option, some, List, [], ◌∷◌, ◌++◌, All, Bytes,
}
use fix_mon.TailReader.{File, TailReader, new_tail, poll, poll_all}
use fix_mon.TailReader.Rotations.{found, lines_of, Rotated, EarlyFirst, poll_all-found}
use fix_mon.Adapters.MessageLog
use fix_mon.Adapters.MessageLog.{Progress}
use fix_mon.Adapters.Polling.{
  Adapter, new_adapter, start, Turn, on_lines, with_poll, poll_once, run,
}

abbrev pub files_of : List Turn → List (Option File)
files_of [] = []
files_of (t ∷ turns) = t.file ∷ files_of turns

abbrev pub Running : Turn → Type 0
Running t = t.running ≡ true

module _ (on_line : ℤ → Bytes → Progress → Progress) where
  -- the callback has been called with these lines, one after the other, each at some time
  pub data Fed : List Bytes → Progress → Progress → Type 0 where
    none_left : {p : Progress} → Fed [] p p
    fed :
        {line : Bytes} {lines : List Bytes} {p q : Progress} (now : ℤ)
        → Fed lines (on_line now line p) q
        → Fed (line ∷ lines) p q

  Fed-append :
      {xs ys : List Bytes} {p q r : Progress} → Fed xs p q → Fed ys q r → Fed (xs ++ ys) p r
  Fed-append none_left b = b
  Fed-append (fed now a) b = fed now (Fed-append a b)

  Fed-on_lines :
      (clock : ℕ → ℤ) (lines : List Bytes) (p : Progress)
      → Fed lines p (on_lines on_line clock lines p)
  unfolding on_lines
  Fed-on_lines clock [] p = none_left
  Fed-on_lines clock (l ∷ lines) p =
      fed (clock 0) (Fed-on_lines (λ n. clock (suc n)) lines (on_line (clock 0) l p))

  poll_once-poll :
      (b : Bool) (file : Option File) (clock : ℕ → ℤ) (a : Adapter) (r : TailReader)
      → a.reader ≡ some r
      → poll_once on_line b file clock a ≡ with_poll on_line a clock (poll b file r)
  unfolding poll_once
  poll_once-poll b file clock a r e = rw e

  Fed-run :
      (b : Bool) (turns : List Turn) (a : Adapter) (r : TailReader)
      → a.reader ≡ some r
      → All Running turns
      → Fed (poll_all b (files_of turns) r).0 a.progress (run on_line b turns a).progress
  unfolding run poll_all
  Fed-run b [] a r e k = none_left
  Fed-run b (t ∷ turns) a r e k =
      let o = poll b t.file r in
      let next = with_poll on_line a t.clock o in
      rw (k.0, poll_once-poll b t.file t.clock a r e)
        (Fed-append (Fed-on_lines t.clock o.0 a.progress) (Fed-run b turns next o.1 refl k.1))

  -- An adapter that is started and reads its log from the beginning calls the callback with each line
  -- that the polls saw once, in order, however these appends fall between the polls: no such line is
  -- lost or cut. What is appended to a file after its last poll is not seen. The polls find one file after the other, each with an identity of its own, and all
  -- happen before the adapter is stopped.
  pub run-Fed :
      (turns : List Turn) (files : List (ℕ × List Bytes × Bytes)) (early : Option File)
      → files_of turns ≡ found files
      → All Running turns
      → Rotated 0 files
      → EarlyFirst files early
      → Fed
          (lines_of files)
          new_adapter.progress
          (run on_line true turns (start true early new_adapter)).progress
  unfolding start
  run-Fed turns files early e k t s =
      subst
        (λ (lines : List Bytes).
          Fed lines new_adapter.progress
            (run on_line true turns (start true early new_adapter)).progress)
        (ap (λ (fs : List (Option File)). (poll_all true fs (new_tail true early)).0) e
          ∙ (poll_all-found files early t s).0)
        (Fed-run true turns (start true early new_adapter) (new_tail true early) refl k)
