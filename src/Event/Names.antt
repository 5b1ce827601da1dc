-- ===== src/Event/Names.antt =====
-- Reading the enumerations of an event back from their text names.
use fix_mon.Prelude.{◌≡◌, refl, ◌∙◌, sym, ap, List, [], ◌∷◌, Bytes, eq_text, if◌then◌else◌}
use fix_mon.Event.{Source, EventClass, Direction, SessionEventType, Event}
use fix_mon.Event.{source_name, class_name, direction_name, session_event_name}

-- the first candidate whose name is the text
abbrev find_named : {A : Type 0} → (A → Bytes) → A → List A → Bytes → A
find_named name default [] s = default
find_named name default (a ∷ as') s =
    if eq_text (name a) s then a else find_named name default as' s

abbrev source_of : Bytes → Source
source_of =
    find_named source_name Source.unknown
      (Source.message_log ∷ Source.event_log ∷ Source.pcap ∷ Source.engine_hook ∷ [])

source_of-source_name : (t : Source) → source_of (source_name t) ≡ t
unfolding source_name eq_text
source_of-source_name Source.message_log = refl
source_of-source_name Source.event_log = refl
source_of-source_name Source.pcap = refl
source_of-source_name Source.engine_hook = refl
source_of-source_name Source.unknown = refl

pub source_name-injective : (a b : Source) → source_name a ≡ source_name b → a ≡ b
source_name-injective a b h =
    sym (source_of-source_name a) ∙ ap source_of h ∙ source_of-source_name b

abbrev class_of : Bytes → EventClass
class_of =
    find_named class_name EventClass.unknown
      (EventClass.fix_message ∷ EventClass.session_event ∷ [])

class_of-class_name : (t : EventClass) → class_of (class_name t) ≡ t
unfolding class_name eq_text
class_of-class_name EventClass.fix_message = refl
class_of-class_name EventClass.session_event = refl
class_of-class_name EventClass.unknown = refl

pub class_name-injective : (a b : EventClass) → class_name a ≡ class_name b → a ≡ b
class_name-injective a b h = sym (class_of-class_name a) ∙ ap class_of h ∙ class_of-class_name b

abbrev direction_of : Bytes → Direction
direction_of =
    find_named direction_name Direction.unknown (Direction.incoming ∷ Direction.outgoing ∷ [])

direction_of-direction_name : (t : Direction) → direction_of (direction_name t) ≡ t
unfolding direction_name eq_text
direction_of-direction_name Direction.incoming = refl
direction_of-direction_name Direction.outgoing = refl
direction_of-direction_name Direction.unknown = refl

pub direction_name-injective : (a b : Direction) → direction_name a ≡ direction_name b → a ≡ b
direction_name-injective a b h =
    sym (direction_of-direction_name a) ∙ ap direction_of h ∙ direction_of-direction_name b

abbrev session_event_of : Bytes → SessionEventType
session_event_of = find_named session_event_name SessionEventType.none (
    SessionEventType.session_created ∷ SessionEventType.connecting ∷ SessionEventType.connect_failed
    ∷ SessionEventType.logon_sent ∷ SessionEventType.logon_received
    ∷ SessionEventType.logon_rejected ∷ SessionEventType.logout_sent
    ∷ SessionEventType.logout_received ∷ SessionEventType.disconnected
    ∷ SessionEventType.seq_num_too_low ∷ SessionEventType.seq_num_too_high
    ∷ SessionEventType.resend_requested ∷ SessionEventType.sequence_reset
    ∷ SessionEventType.heartbeat_timeout ∷ SessionEventType.test_request_sent
    ∷ SessionEventType.reconnect_attempt ∷ SessionEventType.session_scheduled
    ∷ SessionEventType.config_error ∷ SessionEventType.unparsed ∷ [])

session_event_of-session_event_name :
    (t : SessionEventType) → session_event_of (session_event_name t) ≡ t
unfolding session_event_name eq_text
session_event_of-session_event_name SessionEventType.session_created = refl
session_event_of-session_event_name SessionEventType.connecting = refl
session_event_of-session_event_name SessionEventType.connect_failed = refl
session_event_of-session_event_name SessionEventType.logon_sent = refl
session_event_of-session_event_name SessionEventType.logon_received = refl
session_event_of-session_event_name SessionEventType.logon_rejected = refl
session_event_of-session_event_name SessionEventType.logout_sent = refl
session_event_of-session_event_name SessionEventType.logout_received = refl
session_event_of-session_event_name SessionEventType.disconnected = refl
session_event_of-session_event_name SessionEventType.seq_num_too_low = refl
session_event_of-session_event_name SessionEventType.seq_num_too_high = refl
session_event_of-session_event_name SessionEventType.resend_requested = refl
session_event_of-session_event_name SessionEventType.sequence_reset = refl
session_event_of-session_event_name SessionEventType.heartbeat_timeout = refl
session_event_of-session_event_name SessionEventType.test_request_sent = refl
session_event_of-session_event_name SessionEventType.reconnect_attempt = refl
session_event_of-session_event_name SessionEventType.session_scheduled = refl
session_event_of-session_event_name SessionEventType.config_error = refl
session_event_of-session_event_name SessionEventType.unparsed = refl
session_event_of-session_event_name SessionEventType.none = refl

pub session_event_name-injective :
    (a b : SessionEventType) → session_event_name a ≡ session_event_name b → a ≡ b
session_event_name-injective a b h =
    sym (session_event_of-session_event_name a)
    ∙ ap session_event_of h
    ∙ session_event_of-session_event_name b

-- The four labels of an event tell its source, class, direction and narration: events that are
-- labelled alike agree in them.
pub event_names-injective :
    (a b : Event)
    → source_name a.source ≡ source_name b.source
    → class_name a.event_class ≡ class_name b.event_class
    → direction_name a.direction ≡ direction_name b.direction
    → session_event_name a.session_event ≡ session_event_name b.session_event
    → (a.source ≡ b.source)
      × (a.event_class ≡ b.event_class)
      × (a.direction ≡ b.direction)
      × (a.session_event ≡ b.session_event)
event_names-injective a b s c d e = (
  source_name-injective a.source b.source s,
  class_name-injective a.event_class b.event_class c,
  direction_name-injective a.direction b.direction d,
  session_event_name-injective a.session_event b.session_event e,
)
