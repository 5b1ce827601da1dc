-- ===== src/Pipeline/Series.antt =====
-- `inc`, `mirror`, `set`, `update_metrics` and `publish_state` of fix_monitor/src/main.cpp: which
-- series an event moves, and by how much.
use fix_mon.Prelude.{
  ℕ, ◌+◌, ◌%◌, ◌^◌, ℤ, pos, negsuc, Bool, true, false, ◌&&◌, ◌||◌, [], ◌∷◌, Bytes, codes, ltb,
  if◌then◌else◌, eq_text, to_string,
}
use fix_mon.Prelude.Dict
use fix_mon.Event.{
  Event, EventClass, SessionEventType, source_name, direction_name, session_event_name,
}
use fix_mon.FixParser.{msg_type_name}
use fix_mon.SessionState.Apply.{is_outgoing}
use fix_mon.Metrics.{Labels, MetricRegistry, empty_family, counter, encode_labels}

-- `Counter::inc` and `Counter::set` on the series that `counter` returned
abbrev pub move_counter : (ℕ → ℕ) → Bytes → Labels → Bool × MetricRegistry → MetricRegistry
move_counter f name labels (false, r) = r
move_counter f name labels (true, r) = record r {
  families =
      Dict.alter name empty_family
        (λ g. record g { counters = Dict.alter (encode_labels labels) 0 f g.counters }) r.families;
}

unfoldable pub inc : Bytes → Labels → ℕ → MetricRegistry → MetricRegistry
inc name labels n r = move_counter (λ v. (v + n) % 2 ^ 64) name labels (counter name labels r)

unfoldable pub mirror : Bytes → Labels → ℕ → MetricRegistry → MetricRegistry
mirror name labels v r = move_counter (λ w. v) name labels (counter name labels r)

-- a number that is not negative in digits, or "none"
unfoldable pub number_or_none : ℤ → Bytes
number_or_none (pos n) = to_string n
number_or_none (negsuc n) = codes "none"

abbrev session_label : Event → Bytes × Bytes
session_label ev = (codes "session", ev.session_id)

abbrev reason_label : Event → Bytes × Bytes
reason_label ev = (codes "reason", number_or_none ev.reject_reason)

abbrev message_labels : Event → Labels
message_labels ev =
    session_label ev
    ∷ (codes "direction", direction_name ev.direction)
    ∷ (codes "msg_type", ev.msg_type)
    ∷ (codes "msg_type_name", msg_type_name ev.msg_type)
    ∷ []

-- the counter of the reject or resend request that a message is
unfoldable pub count_message : Event → MetricRegistry → MetricRegistry
count_message ev r =
    let is = λ (t : Bytes). eq_text ev.msg_type t in
    if is (codes "3")
    then inc (codes "fixmon_session_rejects_total")
        (session_label ev ∷ reason_label ev ∷ (codes "ref_tag", number_or_none ev.ref_tag_id) ∷ [])
        1 r
    else if is (codes "j")
    then inc (codes "fixmon_business_rejects_total") (session_label ev ∷ reason_label ev ∷ []) 1 r
    else if is (codes "8") && eq_text ev.ord_status (codes "8") || is (codes "9")
    then inc (codes "fixmon_exec_rejects_total") (session_label ev ∷ reason_label ev ∷ []) 1 r
    else if is (codes "2") && is_outgoing ev.direction
    then inc (codes "fixmon_resend_requests_total")
        (session_label ev ∷ (codes "src", codes "message_log") ∷ []) 1 r
    else r

abbrev count_one : Bytes → Event → MetricRegistry → MetricRegistry
count_one name ev r = inc name (session_label ev ∷ []) 1 r

-- the counter of a session event
unfoldable pub count_session_event : SessionEventType → Event → MetricRegistry → MetricRegistry
count_session_event SessionEventType.seq_num_too_low ev r =
    count_one (codes "fixmon_seq_too_low_total") ev r
count_session_event SessionEventType.resend_requested ev r =
    inc (codes "fixmon_resend_requests_total")
      (session_label ev ∷ (codes "src", codes "event_log") ∷ []) 1 r
count_session_event SessionEventType.heartbeat_timeout ev r =
    count_one (codes "fixmon_heartbeat_timeouts_total") ev r
count_session_event SessionEventType.disconnected ev r =
    count_one (codes "fixmon_disconnects_total") ev r
count_session_event SessionEventType.logout_received ev r =
    count_one (codes "fixmon_disconnects_total") ev r
count_session_event SessionEventType.logout_sent ev r =
    count_one (codes "fixmon_disconnects_total") ev r
count_session_event SessionEventType.reconnect_attempt ev r =
    count_one (codes "fixmon_reconnect_attempts_total") ev r
count_session_event SessionEventType.logon_rejected ev r =
    count_one (codes "fixmon_logon_rejects_total") ev r
count_session_event _ ev r = r

abbrev source_labels : Event → Labels
source_labels ev = session_label ev ∷ (codes "src", source_name ev.source) ∷ []

-- the two counters of a gap
unfoldable pub count_gap : Event → ℕ → MetricRegistry → MetricRegistry
count_gap ev gap r =
    if ltb 0 gap
    then inc (codes "fixmon_seq_gap_messages_total") (source_labels ev) gap
        (inc (codes "fixmon_seq_gaps_total") (source_labels ev) 1 r)
    else r

unfoldable pub count_event : EventClass → Event → MetricRegistry → MetricRegistry
count_event EventClass.fix_message ev r =
    count_message ev (inc (codes "fixmon_messages_total") (message_labels ev) 1 r)
count_event _ ev r = count_session_event ev.session_event ev (
    inc (codes "fixmon_session_events_total")
      (session_label ev ∷ (codes "type", session_event_name ev.session_event) ∷ []) 1 r)

unfoldable pub update_metrics : Event → ℕ → MetricRegistry → MetricRegistry
update_metrics ev gap r = count_gap ev gap (count_event ev.event_class ev r)
