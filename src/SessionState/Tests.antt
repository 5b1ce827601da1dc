-- ===== src/SessionState/Tests.antt =====
-- Runs of the registry, and concrete uses of the theorems about it.
use fix_mon.Prelude.{
  wrap64, ◌≢◌, ◌*◌, ◌<◌, ℕ, ℤ, pos, ◌-ℤ◌, ◌≡◌, ◌↔◌, ◌⊎◌, refl, ap, get_or, ◌<◌, List, [], ◌∷◌,
  Bytes, codes, eq_text, arith,
}
use fix_mon.Prelude.Dict
use fix_mon.Event.{Event, EventClass, Direction, default_event}
use fix_mon.SessionState.Snapshot.{LinkState, SessionSnapshot, fresh}
use fix_mon.SessionState.Apply.{
  apply_to, by_class, on_message, on_direction, on_incoming, on_msg_type, stamp,
}
use fix_mon.SessionState.Staleness.{evaluate_lem}
use fix_mon.SessionState.Registry.{Step, Reach, IsValid, Reach-IsValid, apply_comm}
use fix_mon.SessionState.Links.{IsLogon, apply_to_logged_on}
use fix_mon.SessionState.{
  SessionRegistry, new_registry, register_session, apply, evaluate, tolerance, last_heard,
}

-- an inbound message of the session A, of a type and with a number
abbrev inbound : Bytes → ℕ → ℤ → Event
inbound type seq ts = record default_event {
  event_class = EventClass.fix_message;
  direction = Direction.incoming;
  session_id = codes "A";
  msg_type = type;
  msg_seq_num = seq;
  engine_ts_ns = ts;
}

abbrev logon : Event
logon = inbound (codes "A") 1 (pos 1000)

abbrev logout : Event
logout = inbound (codes "5") 5 (pos 2000)

-- 2 and 5, where 2 is expected
abbrev with_gap : List Event
with_gap = inbound (codes "0") 2 (pos 2000) ∷ inbound (codes "0") 5 (pos 3000) ∷ []

abbrev up : SessionSnapshot
up = record (fresh (codes "A")) {
  state = LinkState.logged_on;
  last_event_ts_ns = pos 1000;
  last_incoming_ts_ns = pos 1000;
  next_expected_in = 2;
}

-- the registry after the configuration and one logon
abbrev registered : SessionRegistry
registered = register_session (codes "A") (pos 10) (new_registry (pos 2))

abbrev running : SessionRegistry
running = (apply logon registered).0

running-Reach : Reach (pos 2) running
running-Reach =
    Reach.next (Reach.next Reach.made (Step.registers (codes "A") (pos 10) (new_registry (pos 2))))
      (Step.applies logon registered)

running-IsValid : IsValid running
running-IsValid = Reach-IsValid running-Reach

gap_found_once : (apply_to (inbound (codes "0") 5 (pos 2000)) up).1 ≡ 3
unfolding apply_to by_class on_message on_direction on_incoming on_msg_type stamp eq_text
gap_found_once = refl

heard_again : (evaluate 2 (pos 100_000_000_000) up).state ≡ LinkState.stale
unfolding evaluate last_heard tolerance wrap64 ◌-ℤ◌
heard_again = refl

Reach-IsValid_example : IsValid running
Reach-IsValid_example = Reach-IsValid running-Reach

abbrev other : Event
other = record logon { session_id = codes "B" }

apply_comm_example :
    ((k : Bytes)
      → Dict.lookup k (apply other (apply logout running).0).0.sessions
        ≡ Dict.lookup k (apply logout (apply other running).0).0.sessions)
    × ((apply other (apply logout running).0).1 ≡ (apply other running).1)
    × ((apply logout (apply other running).0).1 ≡ (apply logout running).1)
apply_comm_example =
    apply_comm logout other running running-IsValid (λ e. omega (arith, ap (λ xs. get_or xs 0 0) e))

apply_to_logged_on_example : (LinkState.unknown ≡ LinkState.logged_on) ⊎ IsLogon logon
unfolding apply_to by_class on_message on_direction on_incoming on_msg_type stamp eq_text
apply_to_logged_on_example = apply_to_logged_on logon (fresh (codes "A")) refl

evaluate_lem_example :
    (((evaluate 2 (pos 100_000_000_000) up).state ≡ LinkState.stale) ↔ (
      ((up.state ≡ LinkState.logged_on) ⊎ (up.state ≡ LinkState.stale))
      × (up.heartbeat_interval * 2 * 1_000_000_000 < 99_999_999_000)))
    × (((evaluate 2 (pos 100_000_000_000) up).state ≡ LinkState.stale)
        ⊎ ((((up.state ≡ LinkState.logged_on) ⊎ (up.state ≡ LinkState.stale))
              × ((evaluate 2 (pos 100_000_000_000) up).state ≡ LinkState.logged_on))
            ⊎ ((up.state ≢ LinkState.logged_on)
                × (up.state ≢ LinkState.stale)
                × ((evaluate 2 (pos 100_000_000_000) up).state ≡ up.state))))
unfolding last_heard ◌-ℤ◌
evaluate_lem_example =
    evaluate_lem 2 99_999_999_000 (pos 100_000_000_000) up refl refl (omega arith) (omega arith)
