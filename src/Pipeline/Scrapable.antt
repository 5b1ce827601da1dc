-- ===== src/Pipeline/Scrapable.antt =====
-- What an event, a session and the counters of the program do to a registry that can be scraped
-- (`update_metrics`, `publish_state` and `mirror` of fix_monitor/src/main.cpp).
use fix_mon.Prelude.{ℕ, ◌≡◌, ℤ, Bool, true, false, List, [], ◌∷◌, Bytes, if◌then◌else◌, find_index}
use fix_mon.Event.{Event, EventClass, SessionEventType}
use fix_mon.SessionState.Snapshot.{SessionSnapshot}
use fix_mon.Config.Session.{SessionConfig}
use fix_mon.Metrics.{Labels, MetricRegistry, counter, gauge}
use fix_mon.Metrics.Plain.{
  Plain, good_name, good_labels, counter-Plain, gauge-Plain, alter_counter-IsPlain,
  alter_gauge-IsPlain,
}
use fix_mon.Pipeline.Series.{
  move_counter, inc, mirror, count_message, count_session_event, count_gap, count_event,
  update_metrics,
}
use fix_mon.Pipeline.Publish.{
  Doubles, move_gauge, set, publish_one, publish_state, publish_session_info, mirror_adapters,
  mirror_self, mirror_last, AdapterCounts, SelfCounts,
}

-- a registry whose text a scraper can read
pub record Scrapable (r : MetricRegistry) : Type 0 where
  pub entries : Plain r

module _ (name : Bytes) (labels : Labels) (n : good_name name ≡ true)
    (l : good_labels labels ≡ true) where
  move_counter-Plain :
      (f : ℕ → ℕ) (o : Bool × MetricRegistry) → Plain o.1 → Plain (move_counter f name labels o)
  move_counter-Plain f (false, r) a = a
  move_counter-Plain f (true, r) a = alter_counter-IsPlain name n labels l f r.families a

  move_gauge-Plain :
      (f : ℕ → ℕ) (o : Bool × MetricRegistry) → Plain o.1 → Plain (move_gauge f name labels o)
  move_gauge-Plain f (false, r) a = a
  move_gauge-Plain f (true, r) a = alter_gauge-IsPlain name n labels l f r.families a

  module _ (k : ℕ) (r : MetricRegistry) (s : Scrapable r) where
    inc-Scrapable : Scrapable (inc name labels k r)
    unfolding inc
    inc-Scrapable = record {
      entries =
          move_counter-Plain _ (counter name labels r) (counter-Plain name n labels l r s.entries);
    }

    mirror-Scrapable : Scrapable (mirror name labels k r)
    unfolding mirror
    mirror-Scrapable = record {
      entries =
          move_counter-Plain _ (counter name labels r) (counter-Plain name n labels l r s.entries);
    }

    set-Scrapable : Scrapable (set name labels k r)
    unfolding set
    set-Scrapable = record {
      entries = move_gauge-Plain _ (gauge name labels r) (gauge-Plain name n labels l r s.entries);
    }

either-Scrapable :
    (b : Bool) (x y : MetricRegistry) → Scrapable x → Scrapable y → Scrapable (if b then x else y)
either-Scrapable true x y a c = a
either-Scrapable false x y a c = c

count_message-Scrapable :
    (ev : Event) (r : MetricRegistry) → Scrapable r → Scrapable (count_message ev r)
unfolding count_message find_index
count_message-Scrapable ev r a = search (either-Scrapable, inc-Scrapable)

count_session_event-Scrapable :
    (t : SessionEventType) (ev : Event) (r : MetricRegistry)
    → Scrapable r
    → Scrapable (count_session_event t ev r)
unfolding count_session_event find_index
count_session_event-Scrapable SessionEventType.seq_num_too_low ev r a = search (inc-Scrapable)
count_session_event-Scrapable SessionEventType.resend_requested ev r a = search (inc-Scrapable)
count_session_event-Scrapable SessionEventType.heartbeat_timeout ev r a = search (inc-Scrapable)
count_session_event-Scrapable SessionEventType.disconnected ev r a = search (inc-Scrapable)
count_session_event-Scrapable SessionEventType.logout_received ev r a = search (inc-Scrapable)
count_session_event-Scrapable SessionEventType.logout_sent ev r a = search (inc-Scrapable)
count_session_event-Scrapable SessionEventType.reconnect_attempt ev r a = search (inc-Scrapable)
count_session_event-Scrapable SessionEventType.logon_rejected ev r a = search (inc-Scrapable)
count_session_event-Scrapable _ ev r a = a

count_event-Scrapable :
    (c : EventClass) (ev : Event) (r : MetricRegistry)
    → Scrapable r
    → Scrapable (count_event c ev r)
unfolding count_event find_index
count_event-Scrapable EventClass.fix_message ev r a =
    search (count_message-Scrapable, inc-Scrapable)
count_event-Scrapable _ ev r a = search (count_session_event-Scrapable, inc-Scrapable)

pub update_metrics-Scrapable :
    (ev : Event) (gap : ℕ) (r : MetricRegistry) → Scrapable r → Scrapable (update_metrics ev gap r)
unfolding update_metrics count_gap find_index
update_metrics-Scrapable ev gap r a =
    search (either-Scrapable, inc-Scrapable, count_event-Scrapable)

module _ (doubles : Doubles) where
  publish_one-Scrapable :
      (now : ℤ) (snap : SessionSnapshot) (r : MetricRegistry)
      → Scrapable r
      → Scrapable (publish_one doubles now snap r)
  unfolding publish_one find_index
  publish_one-Scrapable now snap r a = search (set-Scrapable) depth 7

  pub publish_state-Scrapable :
      (now : ℤ) (snaps : List SessionSnapshot) (r : MetricRegistry)
      → Scrapable r
      → Scrapable (publish_state doubles now snaps r)
  unfolding publish_state
  publish_state-Scrapable now [] r a = a
  publish_state-Scrapable now (s ∷ snaps) r a =
      publish_state-Scrapable now snaps (publish_one doubles now s r)
        (publish_one-Scrapable now s r a)

  pub publish_session_info-Scrapable :
      (sc : SessionConfig) (n : ℕ) (r : MetricRegistry)
      → Scrapable r
      → Scrapable (publish_session_info doubles sc n r)
  unfolding publish_session_info find_index
  publish_session_info-Scrapable sc n r a = search (set-Scrapable)

  mirror_adapters-Scrapable :
      (adapters : List AdapterCounts) (r : MetricRegistry)
      → Scrapable r
      → Scrapable (mirror_adapters doubles adapters r)
  unfolding mirror_adapters find_index
  mirror_adapters-Scrapable [] r a = a
  mirror_adapters-Scrapable (x ∷ adapters) r a =
      mirror_adapters-Scrapable adapters _ (search (mirror-Scrapable))

  pub mirror_self-Scrapable :
      (c : SelfCounts) (adapters : List AdapterCounts) (r : MetricRegistry)
      → Scrapable r
      → Scrapable (mirror_self doubles c adapters r)
  unfolding mirror_self find_index
  mirror_self-Scrapable c adapters r a =
      search (set-Scrapable, mirror-Scrapable, mirror_adapters-Scrapable) depth 12

  pub mirror_last-Scrapable :
      (c : SelfCounts) (r : MetricRegistry) → Scrapable r → Scrapable (mirror_last doubles c r)
  unfolding mirror_last find_index
  mirror_last-Scrapable c r a = search (mirror-Scrapable)
