-- ===== src/Adapters/EventLog.antt =====
-- fix_monitor/src/event_log_adapter.cpp: the engine's log of prose. `std::regex_search`, the clock
-- and `std::stoull` are the C++ library's: parameters.
pub mod Rules
use Prim.Native.String.{String}
use fix_mon.Prelude.{
  ℕ, ◌+◌, ◌%◌, ◌^◌, ◌&&◌, ℤ, Bool, true, false, Option, none, some, List, [], ◌∷◌, Bytes, codes,
  get_or, length, ltb, if◌then◌else◌, is_empty,
}
use fix_mon.Event.{Event, EventClass, Source, SessionEventType, default_event}
use fix_mon.Config.Session.{SessionConfig, session_id}
use fix_mon.FixParser.{Tm, split_log_line}
use fix_mon.Redact.Prose.{redact_free_text}
use fix_mon.Adapters.MessageLog.{Progress}

-- A pattern is its text, read without regard to case; a group is 0 where there is none.
pub record Rule : Type 0 where
  pub pattern : Bytes
  pub type : SessionEventType
  pub expected_group : ℕ
  pub received_group : ℕ
  pub text_group : ℕ

abbrev plain : String → SessionEventType → Rule
plain pattern type = record {
  pattern = codes pattern;
  type = type;
  expected_group = 0;
  received_group = 0;
  text_group = 0;
}

abbrev numbers : String → SessionEventType → Rule
numbers pattern type = record (plain pattern type) { expected_group = 1; received_group = 2 }

abbrev reason : String → SessionEventType → Rule
reason pattern type = record (plain pattern type) { text_group = 1 }

unfoldable pub rules : List Rule
rules =
    numbers "MsgSeqNum too low.*expecting\\s+(\\d+).*received\\s+(\\d+)"
      SessionEventType.seq_num_too_low
    ∷ numbers "MsgSeqNum too high.*expecting\\s+(\\d+).*received\\s+(\\d+)"
        SessionEventType.seq_num_too_high
    ∷ plain "(?:Sent|Sending|Received)\\s+ResendRequest.*?(\\d+)" SessionEventType.resend_requested
    ∷ plain "Sequence\\s+reset" SessionEventType.sequence_reset
    ∷ plain
        "(?:Test\\s*Request\\s+timed\\s+out|Heartbeat\\s+timeout|No\\s+response\\s+to\\s+test\\s+request)"
        SessionEventType.heartbeat_timeout
    ∷ plain "Sending\\s+test\\s+request" SessionEventType.test_request_sent
    ∷ plain "Logon\\s+(?:rejected|failed)|Error\\s+during\\s+logon|Invalid\\s+logon"
        SessionEventType.logon_rejected
    ∷ plain "(?:Initiated|Sending|Sent)\\s+logon" SessionEventType.logon_sent
    ∷ plain "Received\\s+logon" SessionEventType.logon_received
    ∷ plain "(?:Sending|Sent)\\s+logout" SessionEventType.logout_sent
    ∷ plain "Received\\s+logout" SessionEventType.logout_received
    ∷ reason "Disconnecting\\s*:?\\s*(.*)" SessionEventType.disconnected
    ∷ plain "(?:Socket\\s+(?:read|write)\\s+error|Connection\\s+reset|Disconnected)"
        SessionEventType.disconnected
    ∷ reason "(?:Connection\\s+failed|Failed\\s+to\\s+connect|Connect\\s+failed)\\s*:?\\s*(.*)"
        SessionEventType.connect_failed
    ∷ plain "Attempting\\s+to\\s+reconnect|Reconnect" SessionEventType.reconnect_attempt
    ∷ plain "Connecting\\s+to" SessionEventType.connecting
    ∷ plain "Session\\s+schedule|Session\\s+state|Session\\s+(?:start|end)"
        SessionEventType.session_scheduled
    ∷ plain "Created\\s+session" SessionEventType.session_created
    ∷ plain "Configuration\\s+error|Invalid\\s+configuration|Dictionary"
        SessionEventType.config_error
    ∷ []

-- what `regex_search` finds: the match and its groups, an unmatched group empty
abbrev pub Match : Type 0
Match = List Bytes

abbrev pub group : Match → ℕ → Bytes
group m idx = get_or m idx []

-- `e` or 0, the answer of the `catch`
abbrev or_zero : Option ℕ → ℕ
or_zero none = 0
or_zero (some n) = n

abbrev pub fresh_event : SessionConfig → ℤ → ℤ → Bytes → Bytes → Event
fresh_event cfg now ts line body = record default_event {
  event_class = EventClass.session_event;
  source = Source.event_log;
  session_id = session_id cfg;
  engine_ts_ns = ts;
  ingest_ts_ns = now;
  raw = redact_free_text line;
  text = redact_free_text body;
}

-- the text of the group that a rule names, scrubbed, unless there is none or it is empty
unfoldable pub reason_text : ℕ → Match → Bytes → Bytes
reason_text text_group m old =
    if ltb 0 text_group && ltb text_group (length m)
    then (if is_empty (group m text_group) then old else redact_free_text (group m text_group))
    else old

abbrev pub is_unparsed : SessionEventType → Bool
is_unparsed SessionEventType.unparsed = true
is_unparsed _ = false

-- `std::stoull`; `none` is an exception.
module _ (regex_search : Bytes → Bytes → Option Match) (stoull : Bytes → Option ℕ) where
  unfoldable pub group_u64 : Match → ℕ → ℕ
  group_u64 m idx = if ltb 0 idx && ltb idx (length m) then or_zero (stoull (group m idx)) else 0

  -- the body of the loop, where the rule matches
  unfoldable pub by_rule : Rule → Match → Event → Event
  by_rule r m out = record out {
    session_event = r.type;
    expected_seq_num = group_u64 m r.expected_group;
    received_seq_num = group_u64 m r.received_group;
    text = reason_text r.text_group m out.text;
  }

  -- the loop over the rules
  unfoldable pub apply_rules : List Rule → Bytes → Event → Event
  apply_rules [] body out = record out { session_event = SessionEventType.unparsed }
  apply_rules (r ∷ rs) body out = elim (regex_search r.pattern body) [
    | none ↦ apply_rules rs body out
    | some m ↦ by_rule r m out
  ]

  narrate : SessionConfig → ℤ → Bytes → ℤ × Bytes → Event
  narrate cfg now line (ts, body) = apply_rules rules body (fresh_event cfg now ts line body)

  -- `none` where `parse_line` returns false
  unfoldable pub parse_line : (Tm → ℤ) → SessionConfig → ℤ → Bytes → Option Event
  unfolding narrate
  parse_line timegm cfg now [] = none
  parse_line timegm cfg now (c ∷ line) =
      some (narrate cfg now (c ∷ line) (split_log_line timegm (c ∷ line)))

  unfoldable pub deliver : Option Event → Progress → Progress
  deliver none p = p
  deliver (some ev) p = record p {
    parse_errors =
        if is_unparsed ev.session_event then (p.parse_errors + 1) % 2 ^ 64 else p.parse_errors;
    sent = ev ∷ p.sent;
  }

  -- the callback of `run`
  unfoldable pub on_line : (Tm → ℤ) → SessionConfig → ℤ → Bytes → Progress → Progress
  on_line timegm cfg now line p =
      deliver (parse_line timegm cfg now line)
        (record p { lines_read = (p.lines_read + 1) % 2 ^ 64 })
