-- ===== src/EventStore/Rows.antt =====
-- The columns of an event and of a snapshot, as they are bound in fix_monitor/src/event_store.cpp.
use fix_mon.Prelude.{
  ℕ, ◌-◌, ◌^◌, ℤ, pos, negsuc, is_nonzero, is_nonneg, Bool, List, [], ◌∷◌, Bytes, is_empty, ltb,
  ◌==◌, if◌then◌else◌,
}
use fix_mon.Event.{
  Event, EventClass, Direction, source_name, class_name, direction_name, session_event_name,
}
use fix_mon.FixParser.{msg_type_name}
use fix_mon.SessionState.Snapshot.{SessionSnapshot, link_name}

pub data Value : Type 0 where
  null : Value
  int : ℤ → Value
  text : Bytes → Value

-- the bytes before the first that is 0
unfoldable pub c_str : Bytes → Bytes
c_str [] = []
c_str (c ∷ cs) = if c == 0 then [] else c ∷ c_str cs

-- an empty text is NULL
unfoldable pub bind_text : Bytes → Value
bind_text v = if is_empty v then Value.null else Value.text (c_str v)

-- the cast of a `uint64_t` to `int64_t`
unfoldable pub int64 : ℕ → ℤ
int64 w = if ltb w (2 ^ 63) then pos w else negsuc (2 ^ 64 - w - 1)

abbrev count_value : ℕ → Value
count_value n = Value.int (int64 n)

-- NULL where the number is 0
abbrev bind_nonzero : ℕ → Value
bind_nonzero n = if n == 0 then Value.null else count_value n

abbrev bind_clock : ℤ → Value
bind_clock t = if is_nonzero t then Value.int t else Value.null

-- NULL where the number is below 0
abbrev bind_nonneg : ℤ → Value
bind_nonneg z = if is_nonneg z then Value.int z else Value.null

abbrev bind_flag : Bool → Value
bind_flag b = Value.int (if b then pos 1 else pos 0)

abbrev bind_direction : Direction → Value
bind_direction Direction.unknown = Value.null
bind_direction d = Value.text (direction_name d)

abbrev bind_session_event : Event → Value
bind_session_event ev = elim ev.event_class [
  | EventClass.session_event ↦ Value.text (session_event_name ev.session_event)
  | _ ↦ Value.null
]

unfoldable pub event_row : Event → List Value
event_row ev =
    Value.int (if is_nonzero ev.engine_ts_ns then ev.engine_ts_ns else ev.ingest_ts_ns)
    ∷ Value.int ev.ingest_ts_ns
    ∷ bind_clock ev.capture_ts_ns
    ∷ bind_text ev.session_id
    ∷ Value.text (class_name ev.event_class)
    ∷ Value.text (source_name ev.source)
    ∷ bind_direction ev.direction
    ∷ bind_text ev.msg_type
    ∷ (if is_empty ev.msg_type then Value.null else Value.text (msg_type_name ev.msg_type))
    ∷ bind_nonzero ev.msg_seq_num
    ∷ bind_flag ev.poss_dup
    ∷ bind_flag ev.poss_resend
    ∷ bind_session_event ev
    ∷ bind_nonzero ev.expected_seq_num
    ∷ bind_nonzero ev.received_seq_num
    ∷ bind_nonneg ev.reject_reason
    ∷ bind_nonneg ev.ref_tag_id
    ∷ bind_nonzero ev.ref_seq_num
    ∷ bind_text ev.ord_status
    ∷ bind_text ev.text
    ∷ bind_text ev.raw
    ∷ []

unfoldable pub snapshot_row : SessionSnapshot → ℤ → List Value
snapshot_row s ts =
    Value.int ts
    ∷ bind_text s.session_id
    ∷ Value.text (link_name s.state)
    ∷ Value.int s.last_incoming_ts_ns
    ∷ Value.int s.last_outgoing_ts_ns
    ∷ count_value s.next_expected_in
    ∷ count_value s.last_outgoing_seq
    ∷ count_value s.msgs_in
    ∷ count_value s.msgs_out
    ∷ count_value s.seq_gaps
    ∷ count_value s.seq_gaps_reported
    ∷ count_value s.seq_too_low
    ∷ count_value s.resend_requests
    ∷ count_value s.heartbeat_timeouts
    ∷ count_value s.disconnects
    ∷ count_value s.reconnect_attempts
    ∷ count_value s.logon_rejects
    ∷ count_value s.session_rejects
    ∷ count_value s.business_rejects
    ∷ count_value s.exec_rejects
    ∷ bind_text s.last_disconnect_reason
    ∷ bind_text s.last_reject_text
    ∷ []
