-- ===== src/SessionState/Snapshot.antt =====
-- `LinkState` and `SessionSnapshot` of fix_monitor/include/fixmon/session_state.hpp.
use fix_mon.Prelude.{
  ℕ, ◌+◌, ◌%◌, ◌^◌, ℤ, pos, is_nonzero, [], Bytes, codes, is_empty, if◌then◌else◌,
}
use fix_mon.Event.{Event}

pub data LinkState : Type 0 where
  unknown disconnected connecting logon_pending logged_on stale : LinkState

-- The counters are `uint64_t`, the clocks `int64_t`; the heartbeat is an `int` that is positive.
pub record SessionSnapshot : Type 0 where
  pub session_id : Bytes
  pub state : LinkState
  pub last_event_ts_ns : ℤ
  pub last_incoming_ts_ns : ℤ
  pub last_outgoing_ts_ns : ℤ
  pub logon_ts_ns : ℤ
  pub next_expected_in : ℕ
  pub last_outgoing_seq : ℕ
  pub msgs_in : ℕ
  pub msgs_out : ℕ
  pub seq_gaps : ℕ
  pub seq_gaps_reported : ℕ
  pub seq_too_low : ℕ
  pub resend_requests : ℕ
  pub heartbeat_timeouts : ℕ
  pub disconnects : ℕ
  pub reconnect_attempts : ℕ
  pub logon_rejects : ℕ
  pub session_rejects : ℕ
  pub business_rejects : ℕ
  pub exec_rejects : ℕ
  pub last_disconnect_reason : Bytes
  pub last_reject_text : Bytes
  pub clock_skew_ns : ℤ
  pub heartbeat_interval : ℕ

-- `SessionSnapshot{}` with its id set
abbrev pub fresh : Bytes → SessionSnapshot
fresh id = record {
  session_id = id;
  state = LinkState.unknown;
  last_event_ts_ns = pos 0;
  last_incoming_ts_ns = pos 0;
  last_outgoing_ts_ns = pos 0;
  logon_ts_ns = pos 0;
  next_expected_in = 0;
  last_outgoing_seq = 0;
  msgs_in = 0;
  msgs_out = 0;
  seq_gaps = 0;
  seq_gaps_reported = 0;
  seq_too_low = 0;
  resend_requests = 0;
  heartbeat_timeouts = 0;
  disconnects = 0;
  reconnect_attempts = 0;
  logon_rejects = 0;
  session_rejects = 0;
  business_rejects = 0;
  exec_rejects = 0;
  last_disconnect_reason = [];
  last_reject_text = [];
  clock_skew_ns = pos 0;
  heartbeat_interval = 30;
}

unfoldable pub link_name : LinkState → Bytes
link_name LinkState.disconnected = codes "disconnected"
link_name LinkState.connecting = codes "connecting"
link_name LinkState.logon_pending = codes "logon_pending"
link_name LinkState.logged_on = codes "logged_on"
link_name LinkState.stale = codes "stale"
link_name LinkState.unknown = codes "unknown"

-- `++` on a `uint64_t`
abbrev pub inc64 : ℕ → ℕ
inc64 n = (n + 1) % 2 ^ 64

abbrev pub if_text : Bytes → Bytes → Bytes
if_text text old = if is_empty text then old else text

-- `ts` of `apply`
unfoldable pub event_ts : Event → ℤ
event_ts ev = if is_nonzero ev.engine_ts_ns then ev.engine_ts_ns else ev.ingest_ts_ns
