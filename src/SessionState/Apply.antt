-- ===== src/SessionState/Apply.antt =====
-- The body of `SessionRegistry::apply` (fix_monitor/src/session_state.cpp), on the snapshot of the
-- event's session.
use fix_mon.Prelude.{
  ℕ, ◌-◌, ◌-ℤ◌, ltb_ℤ, is_nonzero, Bool, true, false, not, ◌&&◌, Bytes, codes, ltb, ◌==◌,
  if◌then◌else◌, eq_text,
}
use fix_mon.Event.{Event, EventClass, Direction, SessionEventType}
use fix_mon.SessionState.Snapshot.{LinkState, SessionSnapshot, inc64, if_text, event_ts}

-- the two clock fields that every event updates
unfoldable pub stamp : Event → SessionSnapshot → SessionSnapshot
unfolding event_ts ◌-ℤ◌
stamp ev s = record s {
  last_event_ts_ns =
      if ltb_ℤ s.last_event_ts_ns (event_ts ev) then event_ts ev else s.last_event_ts_ns;
  clock_skew_ns =
      if is_nonzero ev.engine_ts_ns && is_nonzero ev.ingest_ts_ns
      then ev.ingest_ts_ns -ℤ ev.engine_ts_ns
      else s.clock_skew_ns;
}

-- whether the message takes part in gap detection
abbrev pub counted : Event → Bool
counted ev = not ev.poss_dup && ltb 0 ev.msg_seq_num

abbrev pub gap_found : Event → SessionSnapshot → Bool
gap_found ev s =
    counted ev && (not (s.next_expected_in == 0) && ltb s.next_expected_in ev.msg_seq_num)

unfoldable pub on_incoming : Event → SessionSnapshot → SessionSnapshot × ℕ
on_incoming ev s = (
  record s {
    msgs_in = inc64 s.msgs_in;
    last_incoming_ts_ns = event_ts ev;
    seq_gaps = if gap_found ev s then inc64 s.seq_gaps else s.seq_gaps;
    next_expected_in = if counted ev then inc64 ev.msg_seq_num else s.next_expected_in;
  },
  if gap_found ev s then ev.msg_seq_num - s.next_expected_in else 0,
)

unfoldable pub on_outgoing : Event → SessionSnapshot → SessionSnapshot
on_outgoing ev s = record s {
  msgs_out = inc64 s.msgs_out;
  last_outgoing_ts_ns = event_ts ev;
  last_outgoing_seq =
      if ltb s.last_outgoing_seq ev.msg_seq_num then ev.msg_seq_num else s.last_outgoing_seq;
}

unfoldable pub on_direction : Direction → Event → SessionSnapshot → SessionSnapshot × ℕ
on_direction Direction.incoming ev s = on_incoming ev s
on_direction Direction.outgoing ev s = (on_outgoing ev s, 0)
on_direction Direction.unknown ev s = (s, 0)

abbrev pub is_incoming : Direction → Bool
is_incoming Direction.incoming = true
is_incoming _ = false

abbrev pub is_outgoing : Direction → Bool
is_outgoing Direction.outgoing = true
is_outgoing _ = false

abbrev pub is_logged_on : LinkState → Bool
is_logged_on LinkState.logged_on = true
is_logged_on _ = false

-- a Logon message
unfoldable pub on_logon : Event → SessionSnapshot → SessionSnapshot
on_logon ev s =
    if is_incoming ev.direction
    then record s { state = LinkState.logged_on; logon_ts_ns = event_ts ev }
    else if is_logged_on s.state
    then s
    else record s { state = LinkState.logon_pending }

abbrev pub exec_reject : Event → SessionSnapshot → SessionSnapshot
exec_reject ev s = record s {
  exec_rejects = inc64 s.exec_rejects;
  last_reject_text = if_text ev.text s.last_reject_text;
}

abbrev pub has_type : Event → Bytes → Bool
has_type ev t = eq_text ev.msg_type t

-- the session-layer transitions that the message stream shows
unfoldable pub on_msg_type : Event → SessionSnapshot → SessionSnapshot
unfolding on_logon
on_msg_type ev s =
    if has_type ev (codes "A")
    then on_logon ev s
    else if has_type ev (codes "5")
    then record s { state = LinkState.disconnected }
    else if has_type ev (codes "3")
    then record s {
      session_rejects = inc64 s.session_rejects;
      last_reject_text = if_text ev.text s.last_reject_text;
    }
    else if has_type ev (codes "j")
    then record s {
      business_rejects = inc64 s.business_rejects;
      last_reject_text = if_text ev.text s.last_reject_text;
    }
    else if has_type ev (codes "2")
    then (if is_outgoing ev.direction
        then record s { resend_requests = inc64 s.resend_requests }
        else s)
    else if has_type ev (codes "8") && eq_text ev.ord_status (codes "8")
    then exec_reject ev s
    else if has_type ev (codes "9")
    then exec_reject ev s
    else s

unfoldable pub on_message : Event → SessionSnapshot → SessionSnapshot × ℕ
on_message ev s = let (t, gap) = on_direction ev.direction ev s in (on_msg_type ev t, gap)

abbrev pub disconnect : Event → SessionSnapshot → SessionSnapshot
disconnect ev s = record s {
  disconnects = inc64 s.disconnects;
  state = LinkState.disconnected;
  last_disconnect_reason = if_text ev.text s.last_disconnect_reason;
}

-- the switch over the engine's own narration
unfoldable pub on_session_event : SessionEventType → Event → SessionSnapshot → SessionSnapshot × ℕ
on_session_event SessionEventType.connecting ev s = (record s { state = LinkState.connecting }, 0)
on_session_event SessionEventType.connect_failed ev s = (
  record s {
    state = LinkState.disconnected;
    last_disconnect_reason = if_text ev.text s.last_disconnect_reason;
  },
  0,
)
on_session_event SessionEventType.logon_sent ev s =
    (record s { state = LinkState.logon_pending }, 0)
on_session_event SessionEventType.logon_received ev s =
    (record s { state = LinkState.logged_on; logon_ts_ns = event_ts ev }, 0)
on_session_event SessionEventType.logon_rejected ev s = (
  record s {
    logon_rejects = inc64 s.logon_rejects;
    state = LinkState.disconnected;
    last_disconnect_reason = if_text ev.text s.last_disconnect_reason;
  },
  0,
)
on_session_event SessionEventType.logout_sent ev s = (disconnect ev s, 0)
on_session_event SessionEventType.logout_received ev s = (disconnect ev s, 0)
on_session_event SessionEventType.disconnected ev s = (disconnect ev s, 0)
on_session_event SessionEventType.seq_num_too_low ev s =
    (record s { seq_too_low = inc64 s.seq_too_low }, 0)
on_session_event SessionEventType.seq_num_too_high ev s = (
  record s { seq_gaps_reported = inc64 s.seq_gaps_reported },
  if not (ev.expected_seq_num == 0) && ltb ev.expected_seq_num ev.received_seq_num
      then ev.received_seq_num - ev.expected_seq_num
      else 0,
)
on_session_event SessionEventType.resend_requested ev s =
    (record s { resend_requests = inc64 s.resend_requests }, 0)
on_session_event SessionEventType.heartbeat_timeout ev s =
    (record s { heartbeat_timeouts = inc64 s.heartbeat_timeouts }, 0)
on_session_event SessionEventType.reconnect_attempt ev s =
    (record s { reconnect_attempts = inc64 s.reconnect_attempts; state = LinkState.connecting }, 0)
on_session_event _ ev s = (s, 0)

unfoldable pub by_class : EventClass → Event → SessionSnapshot → SessionSnapshot × ℕ
by_class EventClass.fix_message ev s = on_message ev s
by_class EventClass.session_event ev s = on_session_event ev.session_event ev s
by_class EventClass.unknown ev s = on_session_event ev.session_event ev s

-- `apply`, on the snapshot of the event's session: the new snapshot and the gap revealed
unfoldable pub apply_to : Event → SessionSnapshot → SessionSnapshot × ℕ
apply_to ev s = by_class ev.event_class ev (stamp ev s)
