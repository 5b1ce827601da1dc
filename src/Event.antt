-- ===== src/Event.antt =====
-- The normalized event of fix_monitor/include/fixmon/event.hpp and the text names of
-- fix_monitor/src/event.cpp. Strings are byte lists; the clocks, which are `int64_t`, are integers.
pub mod Names
mod Tests
use fix_mon.Prelude.{ℕ, ℤ, pos, negsuc, Bool, false, [], Bytes, codes}

pub data Source : Type 0 where
  unknown message_log event_log pcap engine_hook : Source

pub data EventClass : Type 0 where
  unknown fix_message session_event : EventClass

pub data Direction : Type 0 where
  unknown incoming outgoing : Direction

pub data SessionEventType : Type 0 where
  none session_created connecting connect_failed logon_sent logon_received : SessionEventType
  logon_rejected logout_sent logout_received disconnected seq_num_too_low : SessionEventType
  seq_num_too_high resend_requested sequence_reset heartbeat_timeout : SessionEventType
  test_request_sent reconnect_attempt session_scheduled config_error unparsed : SessionEventType

pub record Event : Type 0 where
  pub event_class : EventClass
  pub source : Source
  pub session_id : Bytes
  pub direction : Direction
  pub engine_ts_ns : ℤ
  pub capture_ts_ns : ℤ
  pub ingest_ts_ns : ℤ
  pub msg_type : Bytes
  pub msg_seq_num : ℕ
  pub poss_dup : Bool
  pub poss_resend : Bool
  pub reject_reason : ℤ
  pub ref_tag_id : ℤ
  pub ref_seq_num : ℕ
  pub ord_status : Bytes
  pub text : Bytes
  pub session_event : SessionEventType
  pub expected_seq_num : ℕ
  pub received_seq_num : ℕ
  pub raw : Bytes

-- `Event{}`
abbrev pub default_event : Event
default_event = record {
  event_class = EventClass.unknown;
  source = Source.unknown;
  session_id = [];
  direction = Direction.unknown;
  engine_ts_ns = pos 0;
  capture_ts_ns = pos 0;
  ingest_ts_ns = pos 0;
  msg_type = [];
  msg_seq_num = 0;
  poss_dup = false;
  poss_resend = false;
  reject_reason = negsuc 0;
  ref_tag_id = negsuc 0;
  ref_seq_num = 0;
  ord_status = [];
  text = [];
  session_event = SessionEventType.none;
  expected_seq_num = 0;
  received_seq_num = 0;
  raw = [];
}

-- the four overloads of `to_string`
unfoldable pub source_name : Source → Bytes
source_name Source.message_log = codes "message_log"
source_name Source.event_log = codes "event_log"
source_name Source.pcap = codes "pcap"
source_name Source.engine_hook = codes "engine_hook"
source_name Source.unknown = codes "unknown"

unfoldable pub class_name : EventClass → Bytes
class_name EventClass.fix_message = codes "fix_message"
class_name EventClass.session_event = codes "session_event"
class_name EventClass.unknown = codes "unknown"

unfoldable pub direction_name : Direction → Bytes
direction_name Direction.incoming = codes "in"
direction_name Direction.outgoing = codes "out"
direction_name Direction.unknown = codes "unknown"

unfoldable pub session_event_name : SessionEventType → Bytes
session_event_name SessionEventType.session_created = codes "session_created"
session_event_name SessionEventType.connecting = codes "connecting"
session_event_name SessionEventType.connect_failed = codes "connect_failed"
session_event_name SessionEventType.logon_sent = codes "logon_sent"
session_event_name SessionEventType.logon_received = codes "logon_received"
session_event_name SessionEventType.logon_rejected = codes "logon_rejected"
session_event_name SessionEventType.logout_sent = codes "logout_sent"
session_event_name SessionEventType.logout_received = codes "logout_received"
session_event_name SessionEventType.disconnected = codes "disconnected"
session_event_name SessionEventType.seq_num_too_low = codes "seq_num_too_low"
session_event_name SessionEventType.seq_num_too_high = codes "seq_num_too_high"
session_event_name SessionEventType.resend_requested = codes "resend_requested"
session_event_name SessionEventType.sequence_reset = codes "sequence_reset"
session_event_name SessionEventType.heartbeat_timeout = codes "heartbeat_timeout"
session_event_name SessionEventType.test_request_sent = codes "test_request_sent"
session_event_name SessionEventType.reconnect_attempt = codes "reconnect_attempt"
session_event_name SessionEventType.session_scheduled = codes "session_scheduled"
session_event_name SessionEventType.config_error = codes "config_error"
session_event_name SessionEventType.unparsed = codes "unparsed"
session_event_name SessionEventType.none = codes "none"
