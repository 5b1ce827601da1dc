-- ===== src/SessionState/Links.antt =====
-- The link states under `apply` (fix_monitor/src/session_state.cpp).
use fix_mon.Prelude.{
  ◌≢◌, ◌≡◌, refl, ◌⊎◌, inl, inr, true, codes, eq_text, eq_text_iff, arith, Bool-cases,
}
use fix_mon.Event.{Event, EventClass, Direction, SessionEventType}
use fix_mon.SessionState.Snapshot.{LinkState, SessionSnapshot}
use fix_mon.SessionState.Apply.{
  apply_to, by_class, on_message, on_direction, on_incoming, on_outgoing, on_msg_type, on_logon,
  on_session_event, stamp, is_incoming,
}

-- the two ways in which the counterparty's logon is seen
pub data IsLogon (ev : Event) : Type 0 where
  message :
      ev.event_class ≡ EventClass.fix_message
      → ev.direction ≡ Direction.incoming
      → ev.msg_type ≡ codes "A"
      → IsLogon ev
  narrated :
      ev.event_class ≢ EventClass.fix_message
      → ev.session_event ≡ SessionEventType.logon_received
      → IsLogon ev

state-on_direction :
    (d : Direction) (ev : Event) (s : SessionSnapshot) → (on_direction d ev s).0.state ≡ s.state
unfolding on_direction on_incoming on_outgoing
state-on_direction Direction.incoming ev s = refl
state-on_direction _ ev s = refl

is_incoming-eq : (d : Direction) → is_incoming d ≡ true → d ≡ Direction.incoming
is_incoming-eq Direction.incoming h = refl
is_incoming-eq _ h = cc

logged_on-on_msg_type :
    (ev : Event) (s : SessionSnapshot)
    → ev.event_class ≡ EventClass.fix_message
    → (on_msg_type ev s).state ≡ LinkState.logged_on
    → (s.state ≡ LinkState.logged_on) ⊎ IsLogon ev
unfolding on_msg_type on_logon
logged_on-on_msg_type ev s c h = elim (Bool-cases (eq_text ev.msg_type (codes "A"))) [
  | inl e ↦ elim (Bool-cases (is_incoming ev.direction)) [
    | inl i ↦ inr (
        IsLogon.message c (is_incoming-eq ev.direction i)
          ((eq_text_iff ev.msg_type (codes "A")).0 e))
    | inr n ↦ inl (ground arith)
  ]
  | inr e ↦ inl (ground arith)
]

logged_on-on_session_event :
    (t : SessionEventType) (ev : Event) (s : SessionSnapshot)
    → (on_session_event t ev s).0.state ≡ LinkState.logged_on
    → (s.state ≡ LinkState.logged_on) ⊎ (t ≡ SessionEventType.logon_received)
unfolding on_session_event
logged_on-on_session_event SessionEventType.connecting ev s h = cc
logged_on-on_session_event SessionEventType.logon_received ev s h = inr refl
logged_on-on_session_event _ ev s h = ground arith

logged_on-by_class :
    (c : EventClass) (ev : Event) (s : SessionSnapshot)
    → ev.event_class ≡ c
    → (by_class c ev s).0.state ≡ LinkState.logged_on
    → (s.state ≡ LinkState.logged_on) ⊎ IsLogon ev
unfolding by_class on_message
logged_on-by_class EventClass.fix_message ev s e h =
    rw (← state-on_direction ev.direction ev s)
      (logged_on-on_msg_type ev (on_direction ev.direction ev s).0 e h)
logged_on-by_class EventClass.session_event ev s e h =
    elim (logged_on-on_session_event ev.session_event ev s h) [
      | inl old ↦ inl old
      | inr t ↦ inr (IsLogon.narrated (λ f. cc) t)
    ]
logged_on-by_class EventClass.unknown ev s e h =
    elim (logged_on-on_session_event ev.session_event ev s h) [
      | inl old ↦ inl old
      | inr t ↦ inr (IsLogon.narrated (λ f. cc) t)
    ]

-- A session is logged on after an event only if it was before, or the event is a Logon message of
-- the counterparty or the engine's word that it received one.
pub apply_to_logged_on :
    (ev : Event) (s : SessionSnapshot)
    → (apply_to ev s).0.state ≡ LinkState.logged_on
    → (s.state ≡ LinkState.logged_on) ⊎ IsLogon ev
unfolding apply_to stamp
apply_to_logged_on ev s h = logged_on-by_class ev.event_class ev (stamp ev s) refl h

stale-on_msg_type :
    (ev : Event) (s : SessionSnapshot)
    → (on_msg_type ev s).state ≡ LinkState.stale
    → s.state ≡ LinkState.stale
unfolding on_msg_type on_logon
stale-on_msg_type ev s h = ground arith

stale-by_class :
    (c : EventClass) (ev : Event) (s : SessionSnapshot)
    → (by_class c ev s).0.state ≡ LinkState.stale
    → s.state ≡ LinkState.stale
unfolding by_class on_message on_session_event
stale-by_class EventClass.fix_message ev s h =
    rw (← state-on_direction ev.direction ev s)
      (stale-on_msg_type ev (on_direction ev.direction ev s).0 h)
stale-by_class _ ev s h = ground arith

-- No event makes a session stale: only the evaluation of its silence does.
pub apply_to_stale :
    (ev : Event) (s : SessionSnapshot)
    → (apply_to ev s).0.state ≡ LinkState.stale
    → s.state ≡ LinkState.stale
unfolding apply_to stamp
apply_to_stale ev s h = stale-by_class ev.event_class ev (stamp ev s) h
