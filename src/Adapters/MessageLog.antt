-- ===== src/Adapters/MessageLog.antt =====
-- fix_monitor/src/message_log_adapter.cpp: the message log, lines that hold a FIX body each.
pub mod Lines
use fix_mon.Prelude.{
  ℕ, ◌+◌, ◌-◌, ◌*◌, ◌%◌, ◌^◌, ℤ, pos, negsuc, int32, is_nonneg, Bool, true, false, Option, none,
  some, List, [], ◌∷◌, ◌++◌, Bytes, codes, drop, if◌then◌else◌, is_digit, is_empty, eq_text,
  find_text,
}
use fix_mon.Event.{Event, EventClass, Source, Direction, default_event}
use fix_mon.Config.Session.{SessionConfig, session_id}
use fix_mon.FixParser.{Tm, find, TagMap, parse_fix_fields, split_log_line}
use fix_mon.Redact.MaskBody.{mask_fix_body}
use fix_mon.Redact.Prose.{redact_free_text}

unfoldable pub to_u64_from : ℕ → Bytes → ℕ
to_u64_from v [] = v
to_u64_from v (c ∷ cs) = if is_digit c then to_u64_from ((v * 10 + (c - b'0')) % 2 ^ 64) cs else v

unfoldable pub to_u64 : Bytes → ℕ
unfolding to_u64_from is_digit
to_u64 sv = to_u64_from 0 sv

-- `v` as the 32-bit pattern of the `int32_t`
to_i32_from : ℕ → Bytes → ℤ
to_i32_from v [] = int32 v
to_i32_from v (c ∷ cs) =
    if is_digit c then to_i32_from ((v * 10 + (c - b'0')) % 2 ^ 32) cs else negsuc 0

-- Unlike `to_u64` it refuses a text with anything else than digits in it. More than 2 ^ 31 - 1
-- overflows a signed number in the source; the model wraps round.
unfoldable pub to_i32 : Bytes → ℤ
unfolding to_i32_from is_digit
to_i32 sv = if is_empty sv then negsuc 0 else to_i32_from 0 sv

-- what a field says if it is there, and else what was there before
abbrev pub said {ℓ} : {A : Type ℓ} → Option Bytes → (Bytes → A) → A → A
said none read old = old
said (some v) read old = read v

-- 103 before 102
abbrev ord_reason : (ℕ → Option Bytes) → ℤ → ℤ
ord_reason tag old = said (tag 103) to_i32 (said (tag 102) to_i32 old)

-- The reject reason: 373, or 380 if that gave none, or 103 or 102 if that gave none.
unfoldable pub reason_of : (ℕ → Option Bytes) → ℤ
reason_of tag =
    let session = said (tag 373) to_i32 (negsuc 0) in
    let business = if is_nonneg session then session else said (tag 380) to_i32 session in
    if is_nonneg business then business else ord_reason tag business

unfoldable pub direction_of : Bytes → Option Bytes → Direction
direction_of own none = Direction.unknown
direction_of own (some sender) =
    if eq_text sender own then Direction.outgoing else Direction.incoming

-- the settings of an adapter
pub record MessageLogAdapter : Type 0 where
  pub cfg : SessionConfig
  pub mask_bodies : Bool

-- The event, from the values of the tags.
unfoldable pub event_of : MessageLogAdapter → ℤ → ℤ → Bytes → (ℕ → Option Bytes) → Bytes → Event
event_of a now ts body tag msg_type = record default_event {
  event_class = EventClass.fix_message;
  source = Source.message_log;
  session_id = session_id a.cfg;
  engine_ts_ns = ts;
  ingest_ts_ns = now;
  msg_type = msg_type;
  msg_seq_num = said (tag 34) to_u64 0;
  poss_dup = said (tag 43) (λ v. eq_text v (codes "Y")) false;
  poss_resend = said (tag 97) (λ v. eq_text v (codes "Y")) false;
  direction = direction_of a.cfg.sender_comp_id (tag 49);
  reject_reason = reason_of tag;
  ref_tag_id = said (tag 371) to_i32 (negsuc 0);
  ref_seq_num = said (tag 45) to_u64 0;
  ord_status = said (tag 39) (λ v. v) [];
  text = said (tag 58) redact_free_text [];
  raw = mask_fix_body body a.mask_bodies;
}

unfoldable pub from_tags : MessageLogAdapter → ℤ → ℤ → Bytes → Bool × TagMap → Option Event
from_tags a now ts body (false, tags) = none
from_tags a now ts body (true, tags) = elim (find 35 tags) [
  | none ↦ none
  | some msg_type ↦ some (event_of a now ts body (λ k. find k tags) msg_type)
]

unfoldable pub from_payload : MessageLogAdapter → ℤ → ℤ × Bytes → Option Event
from_payload a now (ts, payload) = elim (find_text (codes "8=FIX") payload) [
  | none ↦ none
  | some begin ↦ from_tags a now ts (drop begin payload) (parse_fix_fields (drop begin payload))
]

-- `none` where `parse_line` returns false
unfoldable pub parse_line : (Tm → ℤ) → MessageLogAdapter → ℤ → Bytes → Option Event
parse_line timegm a now line = from_payload a now (split_log_line timegm line)

-- the counters of an adapter, and what it has given to its sink, the latest first
pub record Progress : Type 0 where
  pub lines_read : ℕ
  pub parse_errors : ℕ
  pub sent : List Event

unfoldable pub deliver : Option Event → Progress → Progress
deliver none p = record p { parse_errors = (p.parse_errors + 1) % 2 ^ 64 }
deliver (some ev) p = record p { sent = ev ∷ p.sent }

-- the callback of `run`
unfoldable pub on_line : (Tm → ℤ) → MessageLogAdapter → ℤ → Bytes → Progress → Progress
on_line timegm a now line p =
    deliver (parse_line timegm a now line) (record p { lines_read = (p.lines_read + 1) % 2 ^ 64 })
