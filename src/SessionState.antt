-- ===== src/SessionState.antt =====
-- fix_monitor/src/session_state.cpp and include/fixmon/session_state.hpp: what is known of each
-- session, built up from the events of both logs. The mutex is not modelled: every method holds it
-- from its first line to its last, so a method is one step.
pub mod Snapshot
pub mod Apply
pub mod Gaps
pub mod Registry
pub mod Links
pub mod Staleness
pub mod Clocks
mod Tests
use fix_mon.Prelude.{
  ℕ, zero, suc, ◌+◌, ◌-◌, ◌*◌, ◌%◌, ◌^◌, ℤ, pos, negsuc, ◌-ℤ◌, ltb_ℤ, wrap64, is_nonzero, Bool,
  true, false, not, ◌&&◌, ◌||◌, Option, none, some, List, [], ◌∷◌, map, Bytes, codes, is_empty, ltb,
  ◌==◌, if◌then◌else◌, eq_text,
}
use fix_mon.Prelude.Dict
use fix_mon.Event.{Event}
use Snapshot.{LinkState, SessionSnapshot, fresh}
use Apply.{apply_to}

pub record SessionRegistry : Type 0 where
  pub sessions : List (Bytes × SessionSnapshot)
  pub stale_multiple : ℕ

-- the constructor
unfoldable pub new_registry : ℤ → SessionRegistry
new_registry (pos (suc n)) = record { sessions = []; stale_multiple = suc n }
new_registry _ = record { sessions = []; stale_multiple = 2 }

abbrev heartbeat_or_default : ℤ → ℕ
heartbeat_or_default (pos (suc n)) = suc n
heartbeat_or_default _ = 30

unfoldable pub register_session : Bytes → ℤ → SessionRegistry → SessionRegistry
register_session id hb r = record r {
  sessions =
      Dict.alter id (fresh id)
        (λ s. record s { session_id = id; heartbeat_interval = heartbeat_or_default hb })
        r.sessions;
}

-- the snapshot that `get` finds or makes
abbrev pub session_of : SessionRegistry → Bytes → SessionSnapshot
session_of r id = Dict.value_or (Dict.lookup id r.sessions) (fresh id)

unfoldable pub apply : Event → SessionRegistry → SessionRegistry × ℕ
apply ev r = (
  record r {
    sessions = Dict.alter ev.session_id (fresh ev.session_id) (λ s. (apply_to ev s).0) r.sessions;
  },
  (apply_to ev (session_of r ev.session_id)).1,
)

abbrev pub is_up : LinkState → Bool
is_up LinkState.logged_on = true
is_up LinkState.stale = true
is_up _ = false

abbrev is_stale : LinkState → Bool
is_stale LinkState.stale = true
is_stale _ = false

-- nanoseconds without traffic that a session may have
-- an `int64_t`; a product that overflows it wraps round
unfoldable pub tolerance : ℕ → SessionSnapshot → ℤ
tolerance multiple s = wrap64 (pos (s.heartbeat_interval * multiple * 1_000_000_000))

unfoldable pub last_heard : SessionSnapshot → ℤ
last_heard s =
    if is_nonzero s.last_incoming_ts_ns then s.last_incoming_ts_ns else s.last_event_ts_ns

-- the body of the loop in `evaluate_staleness`
unfoldable pub evaluate : ℕ → ℤ → SessionSnapshot → SessionSnapshot
evaluate multiple now s =
    if not (is_up s.state)
    then s
    else if not (is_nonzero (last_heard s))
    then s
    else if ltb_ℤ (tolerance multiple s) (wrap64 (now -ℤ last_heard s))
    then record s { state = LinkState.stale }
    else if is_stale s.state
    then record s { state = LinkState.logged_on }
    else s

evaluate_all : ℕ → ℤ → List (Bytes × SessionSnapshot) → List (Bytes × SessionSnapshot)
evaluate_all multiple now [] = []
evaluate_all multiple now ((k, s) ∷ m) = (k, evaluate multiple now s) ∷ evaluate_all multiple now m

unfoldable pub evaluate_staleness : ℤ → SessionRegistry → SessionRegistry
unfolding evaluate_all
evaluate_staleness now r = record r { sessions = evaluate_all r.stale_multiple now r.sessions }

unfoldable pub snapshot : SessionRegistry → List SessionSnapshot
snapshot r = map (λ p. p.1) r.sessions
