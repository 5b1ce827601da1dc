-- ===== src/Pipeline/Drained.antt =====
-- What becomes of the events that the consumer takes from the queue.
use fix_mon.Prelude.{
  ℕ, ◌+◌, ◌*◌, ◌^◌, ◌≤◌, ◌<◌, some, List, [], ◌∷◌, ◌++◌, map, append_assoc, append-nil, length,
  length-append, leb, ◌≡◌, refl, sym, ap, subst, ◌∙◌, inl, inr, ◌⊎◌, Bool-cases, arith,
}
use fix_mon.Event.{Event}
use fix_mon.SessionState
use fix_mon.SessionState.{SessionRegistry}
use fix_mon.EventStore.{Sqlite, EventStore, stage, flush}
use fix_mon.EventStore.Rows.{Value, event_row}
use fix_mon.EventStore.Accounts.{IsSqlite, table, flush-IsFlushed}
use fix_mon.Pipeline.{
  Pipeline, Action, take_in, flush_full, consume, tick, act, act_all, take_all, drain,
}

-- the sessions once the events have been applied, one after the other
abbrev pub applied : List Event → SessionRegistry → SessionRegistry
applied [] r = r
applied (ev ∷ evs) r = applied evs (SessionState.apply ev r).0

-- the sessions after a run, in which each tick looks for stale ones
abbrev pub watched : List Action → SessionRegistry → SessionRegistry
watched [] r = r
watched (Action.pops ev ∷ acts) r = watched acts (SessionState.apply ev r).0
watched (Action.ticks now ∷ acts) r = watched acts (SessionState.evaluate_staleness now r)

-- the events that a run takes
abbrev pub popped : List Action → List Event
popped [] = []
popped (Action.pops ev ∷ acts) = ev ∷ popped acts
popped (Action.ticks now ∷ acts) = popped acts

popped-cons : (a : Action) (acts : List Action) → popped (a ∷ []) ++ popped acts ≡ popped (a ∷ acts)
popped-cons (Action.pops ev) acts = refl
popped-cons (Action.ticks now) acts = refl

map-append : (xs ys : List Event) → map event_row (xs ++ ys) ≡ map event_row xs ++ map event_row ys
map-append [] ys = refl
map-append (x ∷ xs) ys = ap (λ (l : List (List Value)). event_row x ∷ l) (map-append xs ys)

module _ {Db : Type 0} (rows : Db → List (List Value)) where
  -- what the store has of the events: the rows of the table, then those of what is staged
  abbrev pub held : EventStore Db → List (List Value)
  held s = table rows s ++ map event_row s.staged

  -- what the store has after the events `evs` more, from `s` on
  pub record IsHolding (s : EventStore Db) (evs : List Event) (t : EventStore Db) : Type 0 where
    pub opened : (d : Db) × (t.db ≡ some d)
    pub all : (held t ≡ held s ++ map event_row evs) ⊎ (s.write_errors < t.write_errors)
    pub errors :
        (s.write_errors ≤ t.write_errors)
        × (t.write_errors + 2 * length t.staged
            ≤ s.write_errors + 2 * length s.staged + 2 * length evs)
    pub rows_bound :
        t.rows_written + length t.staged ≤ s.rows_written + length s.staged + length evs

  -- counters that do not wrap while `n` events more are taken
  abbrev HasRoom : EventStore Db → ℕ → Type 0
  HasRoom s n =
      (s.write_errors + 2 * length s.staged + 2 * n + 1 < 2 ^ 64)
      × (s.rows_written + length s.staged + n < 2 ^ 64)

  held-stage : (ev : Event) (t : EventStore Db) → held (stage ev t) ≡ held t ++ event_row ev ∷ []
  unfolding stage
  held-stage ev t =
      ap (λ (l : List (List Value)). table rows t ++ l) (map-append t.staged (ev ∷ []))
      ∙ sym (append_assoc (table rows t) (map event_row t.staged) (event_row ev ∷ []))

  stage-IsHolding :
      (s t : EventStore Db) (evs : List Event) (ev : Event)
      → IsHolding s evs t
      → IsHolding s (evs ++ ev ∷ []) (stage ev t)
  unfolding stage
  stage-IsHolding s t evs ev h =
      let more = length-append t.staged (ev ∷ []) in
      let longer = length-append evs (ev ∷ []) in
      record {
        opened = h.opened;
        all = elim h.all [
          | inl kept ↦ inl (
              held-stage ev t
              ∙ ap (λ (l : List (List Value)). l ++ event_row ev ∷ []) kept
              ∙ append_assoc (held s) (map event_row evs) (event_row ev ∷ [])
              ∙ ap (λ (l : List (List Value)). held s ++ l) (sym (map-append evs (ev ∷ []))))
          | inr worse ↦ inr worse
        ];
        errors = (h.errors.0, omega (arith, h.errors, more, longer));
        rows_bound = omega (arith, h.rows_bound, more, longer);
      }

module _ {Db : Type 0} (sql : Sqlite Db) (rows : Db → List (List Value))
    (law : IsSqlite sql rows) where
  flush-IsHolding :
      (s t : EventStore Db) (evs : List Event)
      → IsHolding rows s evs t
      → HasRoom rows s (length evs)
      → IsHolding rows s evs (flush sql t).0
  flush-IsHolding s t evs h (small, room) =
      let f =
        flush-IsFlushed sql rows law t h.opened.0 h.opened.1 (omega (arith, h.errors, small))
          (omega (arith, h.rows_bound, room)) in
      let none_staged = ap length f.emptied in
      record {
        opened = f.still_open;
        all = elim h.all [
          | inl kept ↦ elim f.stored [
            | inl (whole, n) ↦ inl (
                ap (λ (l : List Event). table rows (flush sql t).0 ++ map event_row l) f.emptied
                ∙ append-nil (table rows (flush sql t).0)
                ∙ whole
                ∙ kept)
            | inr worse ↦ inr (omega (arith, worse, h.errors))
          ]
          | inr worse ↦ inr (omega (arith, worse, f.errors_bound))
        ];
        errors = (
          omega (arith, h.errors, f.errors_bound),
          omega (arith, h.errors, f.errors_bound, none_staged),
        );
        rows_bound = omega (arith, h.rows_bound, f.rows_bound, f.counted, none_staged);
      }

  consume-IsHolding :
      (s : EventStore Db) (batch_size : ℕ) (ev : Event) (p : Pipeline Db) (evs : List Event)
      → IsHolding rows s evs p.store
      → HasRoom rows s (length (evs ++ ev ∷ []))
      → IsHolding rows s (evs ++ ev ∷ []) (consume sql batch_size ev p).store
  unfolding consume flush_full take_in
  consume-IsHolding s batch_size ev p evs h room =
      let staged = stage-IsHolding rows s p.store evs ev h in
      elim (Bool-cases (leb batch_size (length (stage ev p.store).staged))) [
        | inl e ↦ rw e (flush-IsHolding s (stage ev p.store) (evs ++ ev ∷ []) staged room)
        | inr e ↦ rw e staged
      ]

  act-IsHolding :
      (s : EventStore Db) (batch_size : ℕ) (a : Action) (p : Pipeline Db) (evs : List Event)
      → IsHolding rows s evs p.store
      → HasRoom rows s (length (evs ++ popped (a ∷ [])))
      → IsHolding rows s (evs ++ popped (a ∷ [])) (act sql batch_size a p).store
  unfolding act tick
  act-IsHolding s batch_size (Action.pops ev) p evs h room =
      consume-IsHolding s batch_size ev p evs h room
  act-IsHolding s batch_size (Action.ticks now) p evs h room =
      subst (λ (l : List Event). IsHolding rows s l (flush sql p.store).0) (sym (append-nil evs))
        (flush-IsHolding s p.store evs h
          (subst (λ (l : List Event). HasRoom rows s (length l)) (append-nil evs) room))

  act_all-IsHolding :
      (s : EventStore Db) (batch_size : ℕ) (acts : List Action) (p : Pipeline Db) (evs : List Event)
      → IsHolding rows s evs p.store
      → HasRoom rows s (length evs + length (popped acts))
      → IsHolding rows s (evs ++ popped acts) (act_all sql batch_size acts p).store
  unfolding act_all
  act_all-IsHolding s batch_size [] p evs h room =
      subst (λ (l : List Event). IsHolding rows s l p.store) (sym (append-nil evs)) h
  act_all-IsHolding s batch_size (a ∷ acts) p evs h (small, room) =
      let whole =
        append_assoc evs (popped (a ∷ [])) (popped acts)
        ∙ ap (λ (l : List Event). evs ++ l) (popped-cons a acts) in
      let one = length-append evs (popped (a ∷ [])) in
      let two =
        sym (length-append (popped (a ∷ [])) (popped acts)) ∙ ap length (popped-cons a acts) in
      subst
        (λ (l : List Event).
          IsHolding rows s l (act_all sql batch_size acts (act sql batch_size a p)).store)
        whole
        (act_all-IsHolding s batch_size acts (act sql batch_size a p) (evs ++ popped (a ∷ []))
          (act-IsHolding s batch_size a p evs h
            (omega (arith, small, one, two), omega (arith, room, one, two)))
          (omega (arith, small, one, two), omega (arith, room, one, two)))

  take_all-IsHolding :
      (s : EventStore Db) (rest : List Event) (p : Pipeline Db) (evs : List Event)
      → IsHolding rows s evs p.store
      → IsHolding rows s (evs ++ rest) (take_all sql rest p).store
  unfolding take_all take_in
  take_all-IsHolding s [] p evs h =
      subst (λ (l : List Event). IsHolding rows s l p.store) (sym (append-nil evs)) h
  take_all-IsHolding s (ev ∷ rest) p evs h =
      subst (λ (l : List Event). IsHolding rows s l (take_all sql rest (take_in sql ev p)).store)
        (append_assoc evs (ev ∷ []) rest)
        (take_all-IsHolding s rest (take_in sql ev p) (evs ++ ev ∷ [])
          (stage-IsHolding rows s p.store evs ev h))

  flush_full-sessions :
      (batch_size : ℕ) (p : Pipeline Db) → (flush_full sql batch_size p).sessions ≡ p.sessions
  unfolding flush_full
  flush_full-sessions batch_size p = elim (Bool-cases (leb batch_size (length p.store.staged))) [
    | inl e ↦ rw e refl
    | inr e ↦ rw e refl
  ]

  take_all-sessions :
      (evs : List Event) (p : Pipeline Db) → (take_all sql evs p).sessions ≡ applied evs p.sessions
  unfolding take_all take_in
  take_all-sessions [] p = refl
  take_all-sessions (ev ∷ evs) p = take_all-sessions evs (take_in sql ev p)

  act_all-sessions :
      (batch_size : ℕ) (acts : List Action) (p : Pipeline Db)
      → (act_all sql batch_size acts p).sessions ≡ watched acts p.sessions
  unfolding act_all act tick consume take_in
  act_all-sessions batch_size [] p = refl
  act_all-sessions batch_size (Action.pops ev ∷ acts) p =
      act_all-sessions batch_size acts (consume sql batch_size ev p)
      ∙ ap (watched acts) (flush_full-sessions batch_size (take_in sql ev p))
  act_all-sessions batch_size (Action.ticks now ∷ acts) p =
      act_all-sessions batch_size acts (tick sql now p)

  -- A whole run of the consumer, from an open store: events and timed work in any order while it
  -- runs, then the events `rest` that are left in the queue at shutdown. In the end each of them
  -- has been applied to the sessions, in the order of the queue; nothing is left staged; and the
  -- table of events holds exactly the rows that it had, then those of the events that were staged,
  -- then one row for each event of the run, in the order of the queue, or a write error has been
  -- counted that was not there before. So no event is lost unseen between the queue and the store.
  -- Snapshots and the purge of old rows are not part of such a run. The counters do not wrap, and of
  -- the calls of SQLite that answer success what is documented holds.
  pub drain-act_all :
      (batch_size : ℕ) (acts : List Action) (rest : List Event) (p : Pipeline Db) (d : Db)
      → p.store.db ≡ some d
      → p.store.write_errors
          + 2 * length p.store.staged
          + 2 * (length (popped acts) + length rest)
          + 1
        < 2 ^ 64
      → p.store.rows_written + length p.store.staged + (length (popped acts) + length rest) < 2 ^ 64
      → let q = drain sql rest (act_all sql batch_size acts p) in
        (q.sessions ≡ applied rest (watched acts p.sessions))
        × (q.store.staged ≡ [])
        × ((table rows q.store
              ≡ (table rows p.store ++ map event_row p.store.staged)
                ++ map event_row (popped acts ++ rest))
            ⊎ (p.store.write_errors < q.store.write_errors))
  unfolding drain
  drain-act_all batch_size acts rest p d here small room =
      let s = p.store in
      let start : IsHolding rows s [] s = record {
        opened = (d, here);
        all = inl (sym (append-nil (held rows s)));
        errors = (omega arith, omega arith);
        rows_bound = omega arith;
      } in
      let ran = act_all sql batch_size acts p in
      let h = take_all-IsHolding s rest ran (popped acts) (
        act_all-IsHolding s batch_size acts p [] start
          (omega (arith, small), omega (arith, room))) in
      let t = (take_all sql rest ran).store in
      let sum = length-append (popped acts) rest in
      let f =
        flush-IsHolding s t (popped acts ++ rest) h
          (omega (arith, small, sum), omega (arith, room, sum)) in
      let gone =
        (flush-IsFlushed sql rows law t h.opened.0 h.opened.1 (omega (arith, h.errors, small, sum))
          (omega (arith, h.rows_bound, room, sum))).emptied in
      (
        take_all-sessions rest ran ∙ ap (applied rest) (act_all-sessions batch_size acts p),
        gone,
        elim f.all [
          | inl kept ↦ inl (
              sym (
                ap (λ (l : List Event). table rows (flush sql t).0 ++ map event_row l) gone
                ∙ append-nil (table rows (flush sql t).0))
              ∙ kept)
          | inr worse ↦ inr worse
        ],
      )
