-- ===== src/SessionState/Clocks.antt =====
-- The clock of a session and the fields that name it (fix_monitor/src/session_state.cpp).
use fix_mon.Prelude.{◌∙◌, ◌≡◌, refl, ◌≤ℤ◌, ◌⊎◌, arith}
use fix_mon.Event.{Event, EventClass, Direction, SessionEventType}
use fix_mon.SessionState.Snapshot.{SessionSnapshot, event_ts}
use fix_mon.SessionState.Apply.{
  apply_to, by_class, on_message, on_direction, on_incoming, on_outgoing, on_msg_type, on_logon,
  on_session_event, stamp,
}

-- the fields that only `stamp` and the registration write
record Keeps (s t : SessionSnapshot) : Type 0 where
  last : t.last_event_ts_ns ≡ s.last_event_ts_ns
  skew : t.clock_skew_ns ≡ s.clock_skew_ns
  id : t.session_id ≡ s.session_id
  heartbeat : t.heartbeat_interval ≡ s.heartbeat_interval

Keeps-trans : {s t u : SessionSnapshot} → Keeps s t → Keeps t u → Keeps s u
Keeps-trans h k = record {
  last = k.last ∙ h.last;
  skew = k.skew ∙ h.skew;
  id = k.id ∙ h.id;
  heartbeat = k.heartbeat ∙ h.heartbeat;
}

on_direction-Keeps :
    (d : Direction) (ev : Event) (s : SessionSnapshot) → Keeps s (on_direction d ev s).0
unfolding on_direction on_incoming on_outgoing
on_direction-Keeps Direction.incoming ev s = record {
  last = refl;
  skew = refl;
  id = refl;
  heartbeat = refl;
}
on_direction-Keeps _ ev s = record { last = refl; skew = refl; id = refl; heartbeat = refl }

on_msg_type-Keeps : (ev : Event) (s : SessionSnapshot) → Keeps s (on_msg_type ev s)
unfolding on_msg_type on_logon
on_msg_type-Keeps ev s = ground arith

on_message-Keeps : (ev : Event) (s : SessionSnapshot) → Keeps s (on_message ev s).0
unfolding on_message
on_message-Keeps ev s =
    Keeps-trans (on_direction-Keeps ev.direction ev s)
      (on_msg_type-Keeps ev (on_direction ev.direction ev s).0)

on_session_event-Keeps :
    (t : SessionEventType) (ev : Event) (s : SessionSnapshot) → Keeps s (on_session_event t ev s).0
unfolding on_session_event
on_session_event-Keeps SessionEventType.connecting ev s = record {
  last = refl;
  skew = refl;
  id = refl;
  heartbeat = refl;
}
on_session_event-Keeps _ ev s = record { last = refl; skew = refl; id = refl; heartbeat = refl }

by_class-Keeps : (c : EventClass) (ev : Event) (s : SessionSnapshot) → Keeps s (by_class c ev s).0
unfolding by_class
by_class-Keeps EventClass.fix_message ev s = on_message-Keeps ev s
by_class-Keeps _ ev s = on_session_event-Keeps ev.session_event ev s

-- Every event leaves the name and the heartbeat of a session alone, and the session's clock
-- becomes the later of what it was and the event's time: it is one of the two, and neither is
-- after it.
pub apply_to_clock :
    (ev : Event) (s : SessionSnapshot)
    → ((apply_to ev s).0.session_id ≡ s.session_id)
      × ((apply_to ev s).0.heartbeat_interval ≡ s.heartbeat_interval)
      × (s.last_event_ts_ns ≤ℤ (apply_to ev s).0.last_event_ts_ns)
      × (event_ts ev ≤ℤ (apply_to ev s).0.last_event_ts_ns)
      × (((apply_to ev s).0.last_event_ts_ns ≡ s.last_event_ts_ns)
          ⊎ ((apply_to ev s).0.last_event_ts_ns ≡ event_ts ev))
unfolding apply_to stamp event_ts
apply_to_clock ev s =
    let k = by_class-Keeps ev.event_class ev (stamp ev s) in
    (
      k.id,
      k.heartbeat,
      rw k.last (ground arith),
      rw k.last (ground arith),
      rw k.last (ground arith),
    )
