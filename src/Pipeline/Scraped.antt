-- ===== src/Pipeline/Scraped.antt =====
-- The text of a scrape whatever the logs say (fix_monitor/src/main.cpp over metrics.cpp).
use fix_mon.Prelude.{
  Bool-cases, inl, inr, ℕ, ◌≡◌, sym, subst, pos, ltb_ℤ, Bool, true, false, ◌&&◌, List, [], ◌∷◌,
  Bytes, if◌then◌else◌, Free, leb, length,
}
use fix_mon.Event.{Event}
use fix_mon.Config.Session.{SessionConfig}
use fix_mon.Config.Load.{AppConfig}
use fix_mon.Metrics.{new_metrics, declare_all_metrics}
use fix_mon.Metrics.Exposition.{expose}
use fix_mon.Metrics.Reader.{is_line_feed, is_gap, read_samples, samples}
use fix_mon.Metrics.Scrape.{read_samples-expose}
use fix_mon.Metrics.Plain.{Plain, declared-Plain}
use fix_mon.EventStore.{Sqlite}
use fix_mon.Pipeline.{Pipeline, take_in, consume, flush_full, tick}
use fix_mon.Pipeline.Publish.{Doubles}
use fix_mon.Pipeline.Loop.{
  is_due, started, MainLoop, Seen, register_all, consume_all, report, timed_flush, timed_snapshot,
  timed_purge, pass, passes, snapshot_all,
}
use fix_mon.Pipeline.Scrapable.{
  Scrapable, update_metrics-Scrapable, publish_state-Scrapable, publish_session_info-Scrapable,
  mirror_self-Scrapable,
}

module _ (doubles : Doubles) {Db : Type 0} (sql : Sqlite Db) (cfg : AppConfig) where
  flush_full-metrics : (n : ℕ) (p : Pipeline Db) → (flush_full sql n p).metrics ≡ p.metrics
  unfolding flush_full
  flush_full-metrics n p = elim (Bool-cases (leb n (length p.store.staged))) [
    | inl e ↦ rw e
    | inr e ↦ rw e
  ]

  consume-Scrapable :
      (n : ℕ) (ev : Event) (p : Pipeline Db)
      → Scrapable p.metrics
      → Scrapable (consume sql n ev p).metrics
  unfolding consume take_in
  consume-Scrapable n ev p a =
      rw (flush_full-metrics n (take_in sql ev p)) (update_metrics-Scrapable ev _ p.metrics a)

  consume_all-Scrapable :
      (evs : List Event) (p : Pipeline Db)
      → Scrapable p.metrics
      → Scrapable (consume_all sql doubles cfg evs p).metrics
  unfolding consume_all
  consume_all-Scrapable [] p a = a
  consume_all-Scrapable (ev ∷ evs) p a =
      consume_all-Scrapable evs (consume sql cfg.batch_size ev p)
        (consume-Scrapable cfg.batch_size ev p a)

  register_all-Scrapable :
      (scs : List SessionConfig) (p : Pipeline Db)
      → Scrapable p.metrics
      → Scrapable (register_all sql doubles cfg scs p).metrics
  unfolding register_all
  register_all-Scrapable [] p a = a
  register_all-Scrapable (sc ∷ scs) p a =
      register_all-Scrapable scs _ (publish_session_info-Scrapable doubles sc _ p.metrics a)

  either_loop :
      (b : Bool) (x y : MainLoop Db)
      → Scrapable x.pipeline.metrics
      → Scrapable y.pipeline.metrics
      → Scrapable (if b then x else y).pipeline.metrics
  either_loop true x y a c = a
  either_loop false x y a c = c

  report-Scrapable :
      (w : Seen) (p : Pipeline Db)
      → Scrapable p.metrics
      → Scrapable (report sql doubles cfg w p).metrics
  unfolding report
  report-Scrapable w p a =
      mirror_self-Scrapable doubles _ w.adapters _
        (publish_state-Scrapable doubles w.flush_now _ p.metrics a)

  timed_flush-Scrapable :
      (w : Seen) (m : MainLoop Db)
      → Scrapable m.pipeline.metrics
      → Scrapable (timed_flush sql doubles cfg w m).pipeline.metrics
  unfolding timed_flush tick
  timed_flush-Scrapable w m a =
      either_loop _ _ m (report-Scrapable w (tick sql w.flush_now m.pipeline) a) a

  timed_snapshot-metrics :
      (w : Seen) (m : MainLoop Db)
      → (timed_snapshot sql doubles cfg w m).pipeline.metrics ≡ m.pipeline.metrics
  unfolding timed_snapshot snapshot_all
  timed_snapshot-metrics w m =
      elim (Bool-cases (is_due cfg.snapshot_interval_s 1000000000 w.steady m.last_snapshot)) [
        | inl e ↦ rw e
        | inr e ↦ rw e
      ]

  timed_purge-metrics :
      (w : Seen) (m : MainLoop Db)
      → (timed_purge sql doubles cfg w m).pipeline.metrics ≡ m.pipeline.metrics
  unfolding timed_purge
  timed_purge-metrics w m =
      elim (Bool-cases
        (ltb_ℤ (pos 0) cfg.retention_days && is_due (pos 60) 60000000000 w.steady m.last_purge)) [
          | inl e ↦ rw e
          | inr e ↦ rw e
        ]

  pass-Scrapable :
      (w : Seen) (m : MainLoop Db)
      → Scrapable m.pipeline.metrics
      → Scrapable (pass sql doubles cfg w m).pipeline.metrics
  unfolding pass
  pass-Scrapable w m a =
      let n = record m { pipeline = consume_all sql doubles cfg w.popped m.pipeline } in
      let b = timed_flush-Scrapable w n (consume_all-Scrapable w.popped m.pipeline a) in
      rw
        (
          timed_purge-metrics w
              (timed_snapshot sql doubles cfg w (timed_flush sql doubles cfg w n)),
          timed_snapshot-metrics w (timed_flush sql doubles cfg w n),
        )
        b

  passes-Scrapable :
      (ws : List Seen) (m : MainLoop Db)
      → Scrapable m.pipeline.metrics
      → Scrapable (passes sql doubles cfg ws m).pipeline.metrics
  unfolding passes
  passes-Scrapable [] m a = a
  passes-Scrapable (w ∷ ws) m a =
      passes-Scrapable ws (pass sql doubles cfg w m) (pass-Scrapable w m a)

  -- Whatever texts stand in the logs and in the configuration, after any number of passes of the
  -- loop each series of the registry is kept under the encoding of some labels, and a scraper that
  -- reads the exposition, names, quoted label values and all, finds every counter and gauge of the
  -- registry with these labels and its value, and nothing else: no text can end a label, a line or
  -- start one. The registry is declared and the sessions registered first, and a double is written
  -- without a line feed or space.
  pub read_samples-passes :
      (show_double : ℕ → Bytes)
      → ((v : ℕ) → Free is_line_feed (show_double v) × Free is_gap (show_double v))
      → (max time : ℕ) (ws : List Seen) (p : Pipeline Db)
      → p.metrics ≡ declare_all_metrics (new_metrics max)
      → let r = (passes sql doubles cfg ws (started sql doubles cfg time p)).pipeline.metrics in
        (a : Plain r) × (read_samples (expose show_double r) ≡ samples show_double r a)
  unfolding started
  read_samples-passes show plain max time ws p e =
      let declared : Scrapable p.metrics = record {
        entries = subst Plain (sym e) (declared-Plain max);
      } in
      let m = started sql doubles cfg time p in
      let a = (passes-Scrapable ws m (register_all-Scrapable cfg.sessions p declared)).entries in
      (a, read_samples-expose show plain _ a)
