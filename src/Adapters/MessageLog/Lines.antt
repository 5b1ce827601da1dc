-- ===== src/Adapters/MessageLog/Lines.antt =====
-- Message log lines as the engine writes them, and the counters
-- (fix_monitor/src/message_log_adapter.cpp).
use fix_mon.Prelude.{
  ℕ, ◌+◌, ◌-◌, ◌*◌, ◌%◌, ◌^◌, ◌≤◌, ◌<◌, ℤ, is_nonzero, ◌≡◌, ◌≢◌, eq_text, eq_text_iff, Bool-cases,
  inl, inr, to_string, refl, sym, ap, subst, fun_ext, ◌∙◌, Bool, true, false, not, Option, none,
  some, List, [], ◌∷◌, ◌++◌, map, All, Bytes, codes, length, drop_while, is_empty, Free, find_text,
  arith,
}
use fix_mon.Prelude.Digits.{Digits, IsNumber, to_string-IsNumber, digits_value-to_string}
use fix_mon.Prelude.Numbers.{digits_value}
use fix_mon.Event.{Event, Direction}
use fix_mon.Body.{Field, encode}
use fix_mon.Config.Session.{session_id}
use fix_mon.FixParser.{Tm, find, parse_fix_fields, parse_fix_timestamp, is_blank}
use fix_mon.FixParser.Fields.{IsParsed, first_value, parse_fix_fields-encode}
use fix_mon.FixParser.Lines.{split_log_line-append}
use fix_mon.Redact.Fields.{WellFormed}
use fix_mon.Redact.Fields.Masking.{masked_field, mask_fix_body-encode}
use fix_mon.Adapters.MessageLog.{
  MessageLogAdapter, said, to_u64_from, to_u64, direction_of, event_of, from_tags, from_payload,
  parse_line, Progress, deliver, on_line,
}

-- a body is found where it begins
find_text-body : (rest : Bytes) → find_text (codes "8=FIX") (codes "8=FIX" ++ rest) ≡ some 0
unfolding find_text
find_text-body rest = refl

body_unpadded : (rest : Bytes) → drop_while is_blank (codes "8=FIX" ++ rest) ≡ codes "8=FIX" ++ rest
unfolding drop_while
body_unpadded rest = refl

nonempty :
    (k : ℕ) {v : Bytes} (fs : List Field) → first_value k fs ≡ some v → not (is_empty fs) ≡ true
nonempty k [] t = cc
nonempty k (f ∷ fs) t = refl

-- who sent a message, from our own name and the sender that it names
pub data IsDirection (own : Bytes) : Option Bytes → Direction → Type 0 where
  unsaid : IsDirection own none Direction.unknown
  ours : IsDirection own (some own) Direction.outgoing
  theirs : {sender : Bytes} → sender ≢ own → IsDirection own (some sender) Direction.incoming

direction_of-IsDirection :
    (own : Bytes) (sender : Option Bytes) → IsDirection own sender (direction_of own sender)
unfolding direction_of
direction_of-IsDirection own none = unsaid
direction_of-IsDirection own (some sender) = elim (Bool-cases (eq_text sender own)) [
  | inl e ↦ rw e (
      subst (λ (s : Bytes). IsDirection own (some s) Direction.outgoing)
        (sym ((eq_text_iff sender own).0 e)) ours)
  | inr n ↦ rw n (theirs (λ e. ground (arith, eq_text_iff sender own)))
]

-- a number is read digit by digit, modulo 2 ^ 64
to_u64_from-digits_value :
    (v : ℕ) (cs : Bytes) → Digits cs → to_u64_from (v % 2 ^ 64) cs ≡ digits_value v cs % 2 ^ 64
unfolding to_u64_from digits_value
to_u64_from-digits_value v [] d = refl
to_u64_from-digits_value v (c ∷ cs) d =
    let e : ((v % 2 ^ 64) * 10 + (c - b'0')) % 2 ^ 64 ≡ (v * 10 + (c - b'0')) % 2 ^ 64 =
      omega arith in
    rw (d.0, e) (to_u64_from-digits_value (v * 10 + (c - b'0')) cs d.1)

IsNumber-Digits : (s : Bytes) → IsNumber s → Digits s
IsNumber-Digits [] d = tt
IsNumber-Digits (c ∷ cs) d = d

to_u64-to_string : (n : ℕ) → n < 2 ^ 64 → to_u64 (to_string n) ≡ n
unfolding to_u64
to_u64-to_string n small =
    let whole = ap (λ v. v % 2 ^ 64) (digits_value-to_string n) in
    to_u64_from-digits_value 0 (to_string n) (IsNumber-Digits (to_string n) (to_string-IsNumber n))
    ∙ whole
    ∙ omega arith

deliver-Accounted :
    (r : Option Event) (p : Progress)
    → p.lines_read ≡ p.parse_errors + length p.sent + 1
    → p.lines_read < 2 ^ 64
    → ((deliver r p).lines_read ≡ p.lines_read)
      × ((deliver r p).lines_read ≡ (deliver r p).parse_errors + length (deliver r p).sent)
unfolding deliver
deliver-Accounted none p e h = (refl, omega arith)
deliver-Accounted (some ev) p e h = (refl, omega arith)

pub on_line-Accounted :
    (timegm : Tm → ℤ) (a : MessageLogAdapter) (now : ℤ) (line : Bytes) (p : Progress)
    → p.lines_read ≡ p.parse_errors + length p.sent
    → p.lines_read + 1 < 2 ^ 64
    → ((on_line timegm a now line p).lines_read ≡ p.lines_read + 1)
      × ((on_line timegm a now line p).lines_read
          ≡ (on_line timegm a now line p).parse_errors + length (on_line timegm a now line p).sent)
unfolding on_line
on_line-Accounted timegm a now line p ok room =
    let (kept, sums) =
      deliver-Accounted (parse_line timegm a now line)
        (record p { lines_read = (p.lines_read + 1) % 2 ^ 64 }) (omega arith) (omega arith) in
    (omega (arith, kept), sums)

module _ (a : MessageLogAdapter) (now : ℤ) where
  from_tags-lookup :
      (ts : ℤ) (body msg_type : Bytes) (r : Bool × List (ℕ × Bytes))
      → (tag : ℕ → Option Bytes) → r.0 ≡ true
      → ((k : ℕ) → find k r.1 ≡ tag k)
      → tag 35 ≡ some msg_type
      → from_tags a now ts body r ≡ some (event_of a now ts body tag msg_type)
  unfolding from_tags event_of
  from_tags-lookup ts body msg_type (false, tags) tag f h t = cc
  from_tags-lookup ts body msg_type (true, tags) tag f h t =
      rw (h 35 ∙ t, from_tags)
        (ap (λ (g : ℕ → Option Bytes). some (event_of a now ts body g msg_type)) (fun_ext h))

  from_payload-encode :
      (ts : ℤ) (fs : List Field) (rest msg_type : Bytes)
      → encode fs ≡ codes "8=FIX" ++ rest
      → All IsParsed fs
      → first_value 35 fs ≡ some msg_type
      → from_payload a now (ts, encode fs)
        ≡ some (event_of a now ts (encode fs) (λ k. first_value k fs) msg_type)
  unfolding from_payload
  from_payload-encode ts fs rest msg_type body parsed t =
      let read = parse_fix_fields-encode fs parsed in
      rw
        (
          subst (λ (b : Bytes). find_text (codes "8=FIX") b ≡ some 0) (sym body)
              (find_text-body rest),
          from_payload,
        )
        (from_tags-lookup ts (encode fs) msg_type (parse_fix_fields (encode fs))
          (λ k. first_value k fs) (read.0 ∙ nonempty 35 fs t) read.1 t)

  -- A line of the engine, a timestamp and a body of fields that keep to the lengths they announce,
  -- with a type and a number below 2 ^ 64, gives one event: its time is the stamp's, its type and
  -- number are those of the fields, it is outgoing if the sender is ours, incoming if it is another
  -- one and of unknown direction if there is none, and the body that is kept is the fields, masked.
  pub parse_line-encode :
      (timegm : Tm → ℤ) (stamp : Bytes) (fs : List Field) (rest msg_type : Bytes) {ts : ℤ} {n : ℕ}
      → length stamp ≤ 32
      → Free is_blank stamp
      → parse_fix_timestamp timegm stamp ≡ ts
      → is_nonzero ts ≡ true
      → encode fs ≡ codes "8=FIX" ++ rest
      → All IsParsed fs
      → WellFormed none fs
      → first_value 35 fs ≡ some msg_type
      → first_value 34 fs ≡ some (to_string n)
      → n < 2 ^ 64
      → (ev : Event) × (parse_line timegm a now (stamp ++ (codes " : " ++ encode fs)) ≡ some ev)
        × (ev.engine_ts_ns ≡ ts)
        × (ev.session_id ≡ session_id a.cfg)
        × (ev.msg_type ≡ msg_type)
        × (ev.msg_seq_num ≡ n)
        × IsDirection a.cfg.sender_comp_id (first_value 49 fs) ev.direction
        × (ev.raw ≡ encode (map (masked_field a.mask_bodies) fs))
  unfolding parse_line event_of
  parse_line-encode timegm stamp fs rest msg_type {ts} {n} short free is nz body parsed formed t num
        small =
      (
        event_of a now ts (encode fs) (λ k. first_value k fs) msg_type,
        rw
            (split_log_line-append timegm stamp (encode fs) short free is nz
              (subst (λ (b : Bytes). drop_while is_blank b ≡ b) (sym body) (body_unpadded rest)))
            (from_payload-encode ts fs rest msg_type body parsed t),
        refl,
        refl,
        refl,
        ap (λ (v : Option Bytes). said v to_u64 0) num ∙ to_u64-to_string n small,
        direction_of-IsDirection a.cfg.sender_comp_id (first_value 49 fs),
        mask_fix_body-encode a.mask_bodies fs formed,
      )

-- the lines in turn, each with the time at which it is read
abbrev pub read_all : (Tm → ℤ) → MessageLogAdapter → List (ℤ × Bytes) → Progress → Progress
read_all timegm a [] p = p
read_all timegm a ((now, line) ∷ lines) p = read_all timegm a lines (on_line timegm a now line p)

-- every line read was refused or sent
abbrev pub Accounted : Progress → Type 0
Accounted p = p.lines_read ≡ p.parse_errors + length p.sent

-- Every line is counted, and is either counted as an error or sent on as one event, as long as the
-- counters do not wrap.
pub read_all-Accounted :
    (timegm : Tm → ℤ) (a : MessageLogAdapter) (lines : List (ℤ × Bytes)) (p : Progress)
    → Accounted p
    → p.lines_read + length lines < 2 ^ 64
    → ((read_all timegm a lines p).lines_read ≡ p.lines_read + length lines)
      × Accounted (read_all timegm a lines p)
read_all-Accounted timegm a [] p ok room = (omega arith, ok)
read_all-Accounted timegm a ((now, line) ∷ lines) p ok room =
    let step = on_line-Accounted timegm a now line p ok (omega arith) in
    let r =
      read_all-Accounted timegm a lines (on_line timegm a now line p) step.1
        (omega (arith, step.0)) in
    (omega (arith, r.0, step.0), r.1)
