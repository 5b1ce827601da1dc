-- ===== src/Pipeline/Publish.antt =====
-- `set`, `publish_state`, `publish_session_info` and the counters that the program mirrors about
-- itself (fix_monitor/src/main.cpp). A double is its bits: how numbers become doubles is a parameter.
use fix_mon.Prelude.{
  ℕ, ℤ, pos, negsuc, ◌-ℤ◌, is_nonzero, Bool, true, false, List, [], ◌∷◌, Bytes, codes, is_empty,
  length, if◌then◌else◌,
}
use fix_mon.Prelude.Dict
use fix_mon.SessionState.Snapshot.{LinkState, SessionSnapshot}
use fix_mon.Config.Session.{SessionConfig, session_id, seq_reset_policy, resend_capability}
use fix_mon.Metrics.{Labels, MetricRegistry, empty_family, gauge, encode_labels, series_count}
use fix_mon.Pipeline.Json.{state_code}
use fix_mon.Pipeline.Series.{mirror}

-- the bits of a number, and of a number of nanoseconds divided by 1e9
pub record Doubles : Type 0 where
  pub of_int : ℤ → ℕ
  pub of_uint : ℕ → ℕ
  pub seconds : ℤ → ℕ

-- `Gauge::set` on the series that `gauge` returned
abbrev pub move_gauge : (ℕ → ℕ) → Bytes → Labels → Bool × MetricRegistry → MetricRegistry
move_gauge f name labels (false, r) = r
move_gauge f name labels (true, r) = record r {
  families =
      Dict.alter name empty_family
        (λ g. record g { gauges = Dict.alter (encode_labels labels) 0 f g.gauges }) r.families;
}

unfoldable pub set : Bytes → Labels → ℕ → MetricRegistry → MetricRegistry
set name labels v r = move_gauge (λ w. v) name labels (gauge name labels r)

abbrev is_on : LinkState → Bool
is_on LinkState.logged_on = true
is_on _ = false

-- when the session was last heard, or else spoke
abbrev last_seen : SessionSnapshot → ℤ
last_seen s = if is_nonzero s.last_incoming_ts_ns then s.last_incoming_ts_ns else s.last_event_ts_ns

abbrev only_session : Bytes → Labels
only_session id = (codes "session", id) ∷ []

-- what the adapter of one log says of itself
pub record AdapterCounts : Type 0 where
  pub name : Bytes
  pub session_id : Bytes
  pub lines_read : ℕ
  pub parse_errors : ℕ

-- the counters that the program mirrors
pub record SelfCounts : Type 0 where
  pub queue_size : ℕ
  pub dropped : ℕ
  pub queue_waits : ℕ
  pub rows_written : ℕ
  pub write_errors : ℕ
  pub rows_purged : ℕ

module _ (doubles : Doubles) where
  unfoldable pub age_of : ℤ → ℤ → ℕ
  age_of now last =
      if is_nonzero last then doubles.seconds (now -ℤ last) else doubles.of_int (negsuc 0)

  -- the body of the loop over the sessions
  unfoldable pub publish_one : ℤ → SessionSnapshot → MetricRegistry → MetricRegistry
  publish_one now s r =
      let l = only_session s.session_id in
      let up = doubles.of_int (if is_on s.state then pos 1 else pos 0) in
      let r1 = set (codes "fixmon_session_up") l up r in
      let r2 =
        set (codes "fixmon_session_state") l (doubles.of_int (pos (state_code s.state))) r1 in
      let r3 =
        set (codes "fixmon_next_expected_seq_num") l (doubles.of_uint s.next_expected_in) r2 in
      let r4 =
        set (codes "fixmon_last_outgoing_seq_num") l (doubles.of_uint s.last_outgoing_seq) r3 in
      let r5 = set (codes "fixmon_last_message_age_seconds") l (age_of now (last_seen s)) r4 in
      set (codes "fixmon_engine_clock_skew_seconds") l (doubles.seconds s.clock_skew_ns) r5

  -- over the sessions of the snapshot
  unfoldable pub publish_state : ℤ → List SessionSnapshot → MetricRegistry → MetricRegistry
  publish_state now [] r = r
  publish_state now (s ∷ snaps) r = publish_state now snaps (publish_one now s r)

  info_labels : SessionConfig → Labels
  info_labels sc =
      (codes "session", session_id sc)
      ∷ (codes "begin_string", sc.begin_string)
      ∷ (
        codes "connection_type",
        if is_empty sc.connection_type then codes "unknown" else sc.connection_type,
      )
      ∷ (codes "source", if sc.from_quickfix then codes "quickfix_config" else codes "fixmon_ini")
      ∷ (codes "seq_reset_policy", seq_reset_policy sc)
      ∷ (codes "resend_capability", resend_capability sc)
      ∷ []

  unfoldable pub publish_session_info : SessionConfig → ℕ → MetricRegistry → MetricRegistry
  unfolding info_labels
  publish_session_info sc adapters r =
      let l = only_session (session_id sc) in
      let r1 = set (codes "fixmon_session_info") (info_labels sc) (doubles.of_int (pos 1)) r in
      let r2 = set (codes "fixmon_session_log_sources") l (doubles.of_int (pos adapters)) r1 in
      set (codes "fixmon_session_config_redacted") l (doubles.of_uint (length sc.redacted_settings))
        r2

  unfoldable pub mirror_adapters : List AdapterCounts → MetricRegistry → MetricRegistry
  mirror_adapters [] r = r
  mirror_adapters (a ∷ adapters) r =
      let l = (codes "adapter", a.name) ∷ only_session a.session_id in
      mirror_adapters adapters (
        mirror (codes "fixmon_parse_failures_total") l a.parse_errors
          (mirror (codes "fixmon_lines_read_total") l a.lines_read r))

  -- the program about itself, at a timed flush
  unfoldable pub mirror_self : SelfCounts → List AdapterCounts → MetricRegistry → MetricRegistry
  mirror_self c adapters r =
      let r1 = set (codes "fixmon_queue_depth") [] (doubles.of_uint c.queue_size) r in
      let r2 = set (codes "fixmon_metric_series") [] (doubles.of_uint (series_count r1)) r1 in
      let r3 = mirror (codes "fixmon_events_dropped_total") [] c.dropped r2 in
      let r4 = mirror (codes "fixmon_queue_full_waits_total") [] c.queue_waits r3 in
      let r5 = mirror (codes "fixmon_store_rows_written_total") [] c.rows_written r4 in
      let r6 = mirror (codes "fixmon_store_write_errors_total") [] c.write_errors r5 in
      let r7 = mirror (codes "fixmon_store_rows_purged_total") [] c.rows_purged r6 in
      let r8 = mirror (codes "fixmon_metric_series_rejected_total") [] r7.rejected r7 in
      let r9 = mirror (codes "fixmon_metric_series_redacted_total") [] r8.redacted_series r8 in
      mirror_adapters adapters r9

  -- the counters that are mirrored once more at the end
  unfoldable pub mirror_last : SelfCounts → MetricRegistry → MetricRegistry
  mirror_last c r =
      let r1 = mirror (codes "fixmon_events_dropped_total") [] c.dropped r in
      let r2 = mirror (codes "fixmon_store_rows_written_total") [] c.rows_written r1 in
      mirror (codes "fixmon_store_write_errors_total") [] c.write_errors r2
