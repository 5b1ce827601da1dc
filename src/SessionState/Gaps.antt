-- ===== src/SessionState/Gaps.antt =====
-- Gap detection on the inbound message stream (fix_monitor/src/session_state.cpp).
use fix_mon.Prelude.{
  ℕ, ◌+◌, ◌-◌, ◌≤◌, ◌<◌, ◌^◌, ◌≡◌, ◌≢◌, ◌↔◌, refl, false, List, [], ◌∷◌, arith, ltb, if◌then◌else◌,
}
use fix_mon.Event.{Event, EventClass, Direction}
use fix_mon.SessionState.Snapshot.{SessionSnapshot, inc64}
use fix_mon.SessionState.Apply.{
  apply_to, on_msg_type, on_message, by_class, stamp, on_direction, on_incoming, gap_found,
}

next-on_msg_type :
    (ev : Event) (s : SessionSnapshot) → (on_msg_type ev s).next_expected_in ≡ s.next_expected_in
unfolding on_msg_type
next-on_msg_type ev s = ground arith

gaps-on_msg_type : (ev : Event) (s : SessionSnapshot) → (on_msg_type ev s).seq_gaps ≡ s.seq_gaps
unfolding on_msg_type
gaps-on_msg_type ev s = ground arith

-- an original message of the counterparty, with a number that can be counted on from
pub record IsInbound (ev : Event) : Type 0 where
  pub is_message : ev.event_class ≡ EventClass.fix_message
  pub is_incoming : ev.direction ≡ Direction.incoming
  pub is_original : ev.poss_dup ≡ false
  pub numbered : 0 < ev.msg_seq_num
  pub in_range : ev.msg_seq_num + 1 < 2 ^ 64

apply_to-incoming :
    (ev : Event) (s : SessionSnapshot)
    → IsInbound ev
    → apply_to ev s
      ≡ (on_msg_type ev (on_incoming ev (stamp ev s)).0, (on_incoming ev (stamp ev s)).1)
unfolding apply_to by_class on_message on_direction
apply_to-incoming ev s w =
    rw (w.is_message, by_class, on_message) (rw (w.is_incoming, on_direction))

-- what an inbound message does to the expected number, to the counter, and the gap it reveals
inbound_step :
    (ev : Event) (s : SessionSnapshot)
    → IsInbound ev
    → ((apply_to ev s).0.next_expected_in ≡ inc64 ev.msg_seq_num)
      × ((apply_to ev s).0.seq_gaps ≡ (if gap_found ev s then inc64 s.seq_gaps else s.seq_gaps))
      × ((apply_to ev s).1 ≡ (if gap_found ev s then ev.msg_seq_num - s.next_expected_in else 0))
inbound_step ev s w =
    let u = (on_incoming ev (stamp ev s)).0 in
    rw (apply_to-incoming ev s w, next-on_msg_type ev u, gaps-on_msg_type ev u)
      (unfold on_incoming stamp in (ground arith, refl, refl))

-- the events in order, and the sum of the gaps that they reveal
abbrev pub feed : SessionSnapshot → List Event → SessionSnapshot × ℕ
feed s [] = (s, 0)
feed s (ev ∷ evs) =
    ((feed (apply_to ev s).0 evs).0, (apply_to ev s).1 + (feed (apply_to ev s).0 evs).1)

-- inbound messages whose numbers rise, the first at least `n`
abbrev pub Ascending : ℕ → List Event → Type 0
Ascending n [] = Unit
Ascending n (ev ∷ evs) = IsInbound ev × (n ≤ ev.msg_seq_num) × Ascending (ev.msg_seq_num + 1) evs

-- A gap is counted exactly if it is reported, an original inbound message reports one exactly if
-- its number is above the one expected, and the first numbered message never does.
pub gap_counted :
    (ev : Event) (s : SessionSnapshot)
    → IsInbound ev
    → ((0 < (apply_to ev s).1) ↔ ((s.next_expected_in ≢ 0) × (s.next_expected_in < ev.msg_seq_num)))
      × ((apply_to ev s).0.seq_gaps
          ≡ (if ltb 0 (apply_to ev s).1 then inc64 s.seq_gaps else s.seq_gaps))
gap_counted ev s w =
    rw ((inbound_step ev s w).2, (inbound_step ev s w).1)
      ((λ h. (ground arith, ground arith), λ h. ground arith), ground arith)
