-- ===== src/SessionState/Staleness.antt =====
-- `evaluate_staleness` of fix_monitor/src/session_state.cpp, session by session.
use fix_mon.Prelude.{
  ◌⊎◌, ℕ, ℤ, pos, ◌-ℤ◌, ltb_ℤ, ltb, wrap64, wrap64_small, ◌*◌, ◌^◌, ◌<◌, ap, ap₂, ◌∙◌, ◌≢◌,
  is_nonzero, ◌≡◌, ◌↔◌, true, arith,
}
use fix_mon.SessionState.Snapshot.{LinkState, SessionSnapshot}
use fix_mon.SessionState.{is_up, tolerance, last_heard, evaluate}

-- Only the state of a session changes.
pub evaluate_keeps :
    (multiple : ℕ) (now : ℤ) (s : SessionSnapshot)
    → evaluate multiple now s ≡ record s { state = (evaluate multiple now s).state }
unfolding evaluate
evaluate_keeps multiple now s = ground arith

abbrev IsUp : LinkState → Type 0
IsUp l = (l ≡ LinkState.logged_on) ⊎ (l ≡ LinkState.stale)

is_up_lem : (l : LinkState) → (is_up l ≡ true) ↔ IsUp l
is_up_lem l = ground arith

ltb_ℤ-pos : (a b : ℕ) → ltb_ℤ (pos a) (pos b) ≡ ltb a b
ltb_ℤ-pos a b = ground arith

-- the comparison, where nothing overflows
too_long :
    (multiple silence : ℕ) (now : ℤ) (s : SessionSnapshot)
    → now -ℤ last_heard s ≡ pos silence
    → silence < 2 ^ 63
    → s.heartbeat_interval * multiple * 1_000_000_000 < 2 ^ 63
    → ltb_ℤ (tolerance multiple s) (wrap64 (now -ℤ last_heard s))
      ≡ ltb (s.heartbeat_interval * multiple * 1_000_000_000) silence
unfolding tolerance
too_long multiple silence now s e short room =
    let limit = s.heartbeat_interval * multiple * 1_000_000_000 in
    ap₂ ltb_ℤ (wrap64_small limit room) (ap wrap64 e ∙ wrap64_small silence short)
    ∙ ltb_ℤ-pos limit silence

-- Of a session that has been silent for `silence` nanoseconds since it was last heard of: afterwards
-- it is stale exactly if it was logged on or stale before, and its silence is longer than the
-- heartbeat interval, in seconds, times the multiple. If it is not stale afterwards, it is logged on
-- if it was logged on or stale, and else its state is what it was. The silence and the tolerance,
-- in nanoseconds, are below 2 ^ 63.
pub evaluate_lem :
    (multiple silence : ℕ) (now : ℤ) (s : SessionSnapshot)
    → is_nonzero (last_heard s) ≡ true
    → now -ℤ last_heard s ≡ pos silence
    → silence < 2 ^ 63
    → s.heartbeat_interval * multiple * 1_000_000_000 < 2 ^ 63
    → (((evaluate multiple now s).state ≡ LinkState.stale) ↔ (
        ((s.state ≡ LinkState.logged_on) ⊎ (s.state ≡ LinkState.stale))
        × (s.heartbeat_interval * multiple * 1_000_000_000 < silence)))
      × (((evaluate multiple now s).state ≡ LinkState.stale)
          ⊎ ((((s.state ≡ LinkState.logged_on) ⊎ (s.state ≡ LinkState.stale))
                × ((evaluate multiple now s).state ≡ LinkState.logged_on))
              ⊎ ((s.state ≢ LinkState.logged_on)
                  × (s.state ≢ LinkState.stale)
                  × ((evaluate multiple now s).state ≡ s.state))))
unfolding evaluate
evaluate_lem multiple silence now s heard since short room =
    let long = too_long multiple silence now s since short room in
    let (there, back) = is_up_lem s.state in ((λ h. ground arith, λ h. ground arith), ground arith)

-- A second evaluation at the same time changes nothing.
pub evaluate_idem :
    (multiple : ℕ) (now : ℤ) (s : SessionSnapshot)
    → evaluate multiple now (evaluate multiple now s) ≡ evaluate multiple now s
unfolding evaluate tolerance last_heard
evaluate_idem multiple now s = ground arith
