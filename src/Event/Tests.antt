-- ===== src/Event/Tests.antt =====
-- Runs of the event names.
use fix_mon.Prelude.{◌≡◌, refl, codes}
use fix_mon.Event.{Source, EventClass, Direction, Event, default_event, direction_name}

abbrev inbound : Event
inbound = record default_event {
  event_class = EventClass.fix_message;
  source = Source.message_log;
  direction = Direction.incoming;
}

direction_name-inbound : direction_name inbound.direction ≡ codes "in"
unfolding direction_name
direction_name-inbound = refl
