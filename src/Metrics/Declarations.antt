-- ===== src/Metrics/Declarations.antt =====
-- `declare_all_metrics` of fix_monitor/src/metrics.cpp: the families, their kinds and their help.
use fix_mon.Prelude.{Bool, true, false, List, [], ◌∷◌, Bytes, codes}

-- a name, whether it is a gauge, and the help
unfoldable pub declarations : List (Bytes × Bool × Bytes)
declarations =
    (
      codes "fixmon_messages_total",
      false,
      codes "FIX application messages seen, by session, direction and type",
    )
    ∷ (codes "fixmon_session_rejects_total", false, codes "Session-level Reject (35=3) by reason")
    ∷ (codes "fixmon_business_rejects_total", false, codes "BusinessMessageReject (35=j) by reason")
    ∷ (
      codes "fixmon_exec_rejects_total",
      false,
      codes "Rejected ExecutionReports and cancel rejects by reason",
    )
    ∷ (
      codes "fixmon_session_events_total",
      false,
      codes "Session-layer events narrated by the engine, by type",
    )
    ∷ (codes "fixmon_seq_gaps_total", false, codes "Inbound sequence gaps detected")
    ∷ (
      codes "fixmon_seq_gap_messages_total",
      false,
      codes "Total messages missing across all detected gaps",
    )
    ∷ (
      codes "fixmon_seq_too_low_total",
      false,
      codes "MsgSeqNum-too-low occurrences, which normally require manual reset",
    )
    ∷ (codes "fixmon_resend_requests_total", false, codes "ResendRequests observed")
    ∷ (codes "fixmon_heartbeat_timeouts_total", false, codes "Heartbeat timeouts")
    ∷ (codes "fixmon_disconnects_total", false, codes "Disconnects by session")
    ∷ (codes "fixmon_reconnect_attempts_total", false, codes "Reconnect attempts")
    ∷ (codes "fixmon_logon_rejects_total", false, codes "Rejected logons")
    ∷ (codes "fixmon_session_up", true, codes "1 when the session is logged on, 0 otherwise")
    ∷ (
      codes "fixmon_session_state",
      true,
      codes "Numeric LinkState: 1 disconnected 2 connecting 3 logon_pending 4 logged_on 5 stale",
    )
    ∷ (
      codes "fixmon_last_message_age_seconds",
      true,
      codes "Seconds since the last inbound message on this session",
    )
    ∷ (codes "fixmon_next_expected_seq_num", true, codes "Next expected inbound MsgSeqNum")
    ∷ (codes "fixmon_last_outgoing_seq_num", true, codes "Highest outgoing MsgSeqNum seen")
    ∷ (
      codes "fixmon_engine_clock_skew_seconds",
      true,
      codes "Ingest time minus the engine's timestamp on the last line of this session",
    )
    ∷ (
      codes "fixmon_session_info",
      true,
      codes
          "Static session identity, always 1. Labels: begin_string, connection_type, source, seq_reset_policy, resend_capability. Join against the sequence-gap counters: a gap under reset_each_logon is routine, the same gap under persistent is an incident",
    )
    ∷ (
      codes "fixmon_session_log_sources",
      true,
      codes "Number of log adapters attached to this session (0 means nothing is being read)",
    )
    ∷ (
      codes "fixmon_session_config_redacted",
      true,
      codes "Credential settings found in the engine config and dropped, by count",
    )
    ∷ (codes "fixmon_lines_read_total", false, codes "Log lines read, by adapter")
    ∷ (codes "fixmon_parse_failures_total", false, codes "Lines the adapter could not map")
    ∷ (
      codes "fixmon_events_dropped_total",
      false,
      codes "Events dropped because the internal queue was full",
    )
    ∷ (
      codes "fixmon_queue_full_waits_total",
      false,
      codes "Times a producer had to wait because the internal queue was full",
    )
    ∷ (codes "fixmon_store_rows_written_total", false, codes "Rows committed to the event store")
    ∷ (codes "fixmon_store_write_errors_total", false, codes "Event store write errors")
    ∷ (
      codes "fixmon_store_rows_purged_total",
      false,
      codes
          "Rows removed by retention. Flat at zero with retention on means nothing has aged out yet, or the purge is not running",
    )
    ∷ (codes "fixmon_queue_depth", true, codes "Approximate internal queue depth")
    ∷ (codes "fixmon_metric_series", true, codes "Number of exported series")
    ∷ (
      codes "fixmon_metric_series_rejected_total",
      false,
      codes "Series refused because the cardinality cap was reached",
    )
    ∷ (
      codes "fixmon_metric_series_redacted_total",
      false,
      codes "Series refused because a label named a credential - should always be 0",
    )
    ∷ []
