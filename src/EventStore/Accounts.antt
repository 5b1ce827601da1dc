-- ===== src/EventStore/Accounts.antt =====
-- What the counters of the store say of the table of events.
use fix_mon.Prelude.{
  ℕ, ◌+◌, ◌*◌, ◌^◌, ◌≤◌, ◌<◌, Bool, true, false, Option, none, some, List, [], ◌∷◌, ◌++◌, codes,
  length, map, append_assoc, append-nil, is_empty, ltb, ◌≡◌, refl, sym, ap, subst, ◌∙◌, inl, inr,
  ◌⊎◌, Bool-cases, arith,
}
use fix_mon.Event.{Event}
use fix_mon.EventStore.{
  Table, Sqlite, EventStore, Batch, count_row, insert_rows, settle_batch, write_batch, flush_open,
  flush,
}
use fix_mon.EventStore.Rows.{Value, event_row}

-- What SQLite documents of the calls that answer success, on a connection that writes alone:
-- `rows` is what the connection reads of the table of events. Of a call that fails nothing is said:
-- SQLite may have rolled the whole transaction back.
pub record IsSqlite {Db : Type 0} (sql : Sqlite Db) (rows : Db → List (List Value)) : Type 0 where
  pub begun :
      (d : Db)
      → (sql.exec (codes "BEGIN IMMEDIATE;") d).0 ≡ true
      → rows (sql.exec (codes "BEGIN IMMEDIATE;") d).1 ≡ rows d
  pub inserted :
      (r : List Value) (d : Db)
      → (sql.insert Table.events r d).0 ≡ true
      → rows (sql.insert Table.events r d).1 ≡ rows d ++ r ∷ []
  pub committed :
      (d : Db)
      → (sql.exec (codes "COMMIT;") d).0 ≡ true
      → rows (sql.exec (codes "COMMIT;") d).1 ≡ rows d

none_left {ℓ} : {A : Type ℓ} (xs : List A) → is_empty xs ≡ true → xs ≡ []
none_left [] e = refl
none_left (x ∷ xs) e = cc

some_left {ℓ} : {A : Type ℓ} (xs : List A) → is_empty xs ≡ false → 1 ≤ length xs
some_left [] e = cc
some_left (x ∷ xs) e = omega arith

module _ {Db : Type 0} (rows : Db → List (List Value)) where
  -- the table behind the store, if it is open
  abbrev pub rows_of : Option Db → List (List Value)
  rows_of none = []
  rows_of (some d) = rows d

  abbrev pub table : EventStore Db → List (List Value)
  table s = rows_of s.db

  -- the batch has the rows of these events, or an error has been counted
  abbrev IsLoaded : List Event → Batch Db → Batch Db → Type 0
  IsLoaded evs b c =
      ((rows c.db ≡ rows b.db ++ map event_row evs) ⊎ (b.errors < c.errors))
      × (b.errors ≤ c.errors)
      × (c.errors + c.written ≡ b.errors + b.written + length evs)

  -- what `flush` leaves, with the number of rows that it says
  pub record IsFlushed (s t : EventStore Db) (n : ℕ) : Type 0 where
    pub emptied : t.staged ≡ []
    pub stored :
        ((table t ≡ table s ++ map event_row s.staged) × (n ≡ length s.staged))
        ⊎ (s.write_errors < t.write_errors)
    pub counted : t.rows_written ≡ s.rows_written + n
    pub errors_bound :
        (s.write_errors ≤ t.write_errors) × (t.write_errors ≤ s.write_errors + 2 * length s.staged)
    pub rows_bound : n ≤ length s.staged
    pub still_open : (d : Db) × (t.db ≡ some d)

module _ {Db : Type 0} (sql : Sqlite Db) (rows : Db → List (List Value))
    (law : IsSqlite sql rows) where
  open law use {begun, inserted, committed}

  count_row-IsLoaded :
      (ev : Event) (b : Batch Db) (x : Bool × Db)
      → sql.insert Table.events (event_row ev) b.db ≡ x
      → b.errors + 1 < 2 ^ 64
      → IsLoaded rows (ev ∷ []) b (count_row b x)
  count_row-IsLoaded ev b (true, d) e small = (
    inl (
        ap (λ (y : Bool × Db). rows y.1) (sym e)
        ∙ inserted (event_row ev) b.db (ap (λ (y : Bool × Db). y.0) e)),
    omega arith,
    omega arith,
  )
  count_row-IsLoaded ev b (false, d) e small = (inr (omega arith), omega arith, omega arith)

  count_row_errors :
      (b : Batch Db) (x : Bool × Db) → b.errors + 1 < 2 ^ 64 → (count_row b x).errors ≤ b.errors + 1
  count_row_errors b (true, d) h = omega arith
  count_row_errors b (false, d) h = omega arith

  insert_rows-IsLoaded :
      (evs : List Event) (b : Batch Db)
      → b.errors + length evs < 2 ^ 64
      → IsLoaded rows evs b (insert_rows sql evs b)
  unfolding insert_rows
  insert_rows-IsLoaded [] b small = (inl (sym (append-nil (rows b.db))), omega arith, omega arith)
  insert_rows-IsLoaded (ev ∷ evs) b small =
      let x = sql.insert Table.events (event_row ev) b.db in
      let (one, le, sum) = count_row-IsLoaded ev b x refl (omega arith) in
      let bound = count_row_errors b x (omega arith) in
      let (more, le', sum') = insert_rows-IsLoaded evs (count_row b x) (omega (arith, bound)) in
      (
        elim one [
          | inl here ↦ elim more [
            | inl there ↦ inl (
                there
                ∙ ap (λ (l : List (List Value)). l ++ map event_row evs) here
                ∙ append_assoc (rows b.db) (event_row ev ∷ []) (map event_row evs))
            | inr worse ↦ inr (omega (arith, le, worse))
          ]
          | inr worse ↦ inr (omega (arith, le', worse))
        ],
        omega (arith, le, le'),
        omega (arith, sum, sum'),
      )

  settle_batch-IsFlushed :
      (s : EventStore Db) (b : Batch Db) (x : Bool × Db)
      → sql.exec (codes "COMMIT;") b.db ≡ x
      → (rows b.db ≡ table rows s ++ map event_row s.staged) ⊎ (s.write_errors < b.errors)
      → b.errors + b.written ≡ s.write_errors + length s.staged
      → s.write_errors + length s.staged + 1 < 2 ^ 64
      → s.rows_written + length s.staged < 2 ^ 64
      → s.write_errors ≤ b.errors
      → 1 ≤ length s.staged
      → IsFlushed rows s (settle_batch sql s b x).0 (settle_batch sql s b x).1
  settle_batch-IsFlushed s b (true, c) e loaded count small room more filled =
      let same : rows c ≡ rows b.db =
        ap (λ (y : Bool × Db). rows y.1) (sym e) ∙ committed b.db (ap (λ (y : Bool × Db). y.0) e) in
      record {
        emptied = refl;
        stored = elim loaded [
          | inr worse ↦ inr worse
          | inl all ↦ elim (Bool-cases (ltb s.write_errors b.errors)) [
            | inl h ↦ inr (ground arith)
            | inr h ↦ inl (same ∙ all, ground (arith, count, more))
          ]
        ];
        counted = omega (arith, count, more, room);
        errors_bound = (omega (arith, more), omega (arith, count));
        rows_bound = omega (arith, count, more);
        still_open = (c, refl);
      }
  settle_batch-IsFlushed s b (false, c) e loaded count small room more filled = record {
    emptied = refl;
    stored = inr (omega (arith, more, small, count));
    counted = omega arith;
    errors_bound = (omega (arith, more, small, count), omega (arith, small, count));
    rows_bound = omega arith;
    still_open = ((sql.exec (codes "ROLLBACK;") c).1, refl);
  }

  write_batch-IsFlushed :
      (s : EventStore Db) (d : Db) (x : Bool × Db)
      → s.db ≡ some d
      → sql.exec (codes "BEGIN IMMEDIATE;") d ≡ x
      → s.write_errors + length s.staged + 1 < 2 ^ 64
      → s.rows_written + length s.staged < 2 ^ 64
      → 1 ≤ length s.staged
      → IsFlushed rows s (write_batch sql s x).0 (write_batch sql s x).1
  write_batch-IsFlushed s d (true, c) here e small room filled =
      let start : Batch Db = record { db = c; written = 0; errors = s.write_errors } in
      let b = insert_rows sql s.staged start in
      let (loaded, more, sum) = insert_rows-IsLoaded s.staged start (omega (arith, small)) in
      let same : rows c ≡ table rows s =
        ap (λ (y : Bool × Db). rows y.1) (sym e)
        ∙ begun d (ap (λ (y : Bool × Db). y.0) e)
        ∙ ap (rows_of rows) (sym here) in
      settle_batch-IsFlushed s b (sql.exec (codes "COMMIT;") b.db) refl
        (elim loaded [
          | inl all ↦ inl (all ∙ ap (λ (l : List (List Value)). l ++ map event_row s.staged) same)
          | inr worse ↦ inr worse
        ])
        (omega (arith, sum)) small room more filled
  write_batch-IsFlushed s d (false, c) here e small room filled = record {
    emptied = refl;
    stored = inr (omega (arith, small));
    counted = omega arith;
    errors_bound = (omega (arith, small), omega (arith, small));
    rows_bound = omega arith;
    still_open = (c, refl);
  }

  nothing-IsFlushed :
      (s : EventStore Db) (d : Db) → s.db ≡ some d → is_empty s.staged ≡ true → IsFlushed rows s s 0
  nothing-IsFlushed s d here e =
      let none_staged = none_left s.staged e in
      record {
        emptied = none_staged;
        stored = inl (
          sym (
              ap (λ (l : List Event). table rows s ++ map event_row l) none_staged
              ∙ append-nil (table rows s)),
          sym (ap length none_staged),
        );
        counted = omega arith;
        errors_bound = (omega arith, omega arith);
        rows_bound = omega arith;
        still_open = (d, here);
      }

  flush_open-IsFlushed :
      (s : EventStore Db) (d : Db)
      → s.db ≡ some d
      → s.write_errors + length s.staged + 1 < 2 ^ 64
      → s.rows_written + length s.staged < 2 ^ 64
      → IsFlushed rows s (flush_open sql s d).0 (flush_open sql s d).1
  flush_open-IsFlushed s d here small room = elim (Bool-cases (is_empty s.staged)) [
    | inl e ↦ rw e (nothing-IsFlushed s d here e)
    | inr e ↦ rw e (
        write_batch-IsFlushed s d (sql.exec (codes "BEGIN IMMEDIATE;") d) here refl small room
          (some_left s.staged e))
  ]

  -- A flush of an open store never loses an event unseen. Afterwards nothing is staged, the number
  -- of rows that it returns is added to `rows_written`, and either the table of events has grown by
  -- the rows of all events that were staged, in their order, or a write error has been counted;
  -- also where the transaction cannot begin, where single rows are refused, and where COMMIT fails.
  pub flush-IsFlushed :
      (s : EventStore Db) (d : Db)
      → s.db ≡ some d
      → s.write_errors + length s.staged + 1 < 2 ^ 64
      → s.rows_written + length s.staged < 2 ^ 64
      → IsFlushed rows s (flush sql s).0 (flush sql s).1
  unfolding flush
  flush-IsFlushed s d here small room =
      let same : flush sql s ≡ flush_open sql s d =
        ap (λ (o : Option Db). elim o [ none ↦ (s, 0) | some e ↦ flush_open sql s e ]) here in
      subst (λ (r : EventStore Db × ℕ). IsFlushed rows s r.0 r.1) (sym same)
        (flush_open-IsFlushed s d here small room)
