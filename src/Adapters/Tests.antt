-- ===== src/Adapters/Tests.antt =====
-- Runs of the two adapters, and concrete uses of the theorems about them.
use fix_mon.Prelude.{
  ℕ, ◌==◌, ℤ, pos, ◌+ℤ◌, ◌*ℤ◌, ◌≡◌, refl, true, Option, none, some, List, [], ◌∷◌, ◌++◌, map, All,
  Free-find_index, Bytes, codes, drop, if◌then◌else◌, starts_with, find_index, is_digit, arith,
  to_string,
}
use fix_mon.Event.{Event}
use fix_mon.Body.{Field, encode}
use fix_mon.Config.Session.{default_session, session_id}
use fix_mon.FixParser.{Tm, is_separator, to_int, parse_fix_timestamp, is_blank}
use fix_mon.FixParser.Fields.{IsParsed, first_value}
use fix_mon.Redact.Tags.{is_fix_separator, parse_tag, parse_tag_from, data_tag_for_length_tag}
use fix_mon.Redact.MaskBody.{announced, expect_after, declared}
use fix_mon.Redact.Fields.{WellFormed}
use fix_mon.Redact.Fields.Masking.{masked_field}
use fix_mon.Adapters.MessageLog
use fix_mon.Adapters.MessageLog.{
  MessageLogAdapter, said, to_u64, to_i32, reason_of, direction_of, Progress,
}
use fix_mon.TailReader.{File}
use fix_mon.Adapters.Polling.{Turn, run, start, new_adapter}
use fix_mon.Adapters.MessageLog.Lines.{IsDirection, parse_line-encode}
use fix_mon.Adapters.EventLog
use fix_mon.Adapters.EventLog.{Rule, rules, Match, group_u64, fresh_event, apply_rules}

-- seconds into the day
abbrev day_clock : Tm → ℤ
day_clock tm = tm.tm_hour *ℤ pos 3600 +ℤ tm.tm_min *ℤ pos 60 +ℤ tm.tm_sec

abbrev stamp : Bytes
stamp = codes "20240102-00:01:01"

abbrev fields : List Field
fields =
    record { tag = codes "8"; value = codes "FIX.4.4"; sep = 1 }
    ∷ record { tag = codes "35"; value = codes "0"; sep = 1 }
    ∷ record { tag = codes "34"; value = codes "7"; sep = 1 }
    ∷ []

abbrev adapter : MessageLogAdapter
adapter = record {
  cfg = record default_session { sender_comp_id = codes "US" };
  mask_bodies = true;
}

reason_of-order : reason_of (λ k. if k == 380 then some (codes "4") else some (codes "x")) ≡ pos 4
unfolding reason_of to_i32
reason_of-order = refl

fields-IsParsed : All IsParsed fields
unfolding is_separator to_int
fields-IsParsed = (
  record {
    field = record {
      tag_free = (refl, tt);
      value_free = (refl, (refl, (refl, (refl, (refl, (refl, (refl, tt)))))));
      sep_is = refl;
    };
    number = 8;
    number_is = refl;
  },
  (
    record {
      field = record { tag_free = (refl, (refl, tt)); value_free = (refl, tt); sep_is = refl };
      number = 35;
      number_is = refl;
    },
    (
      record {
        field = record { tag_free = (refl, (refl, tt)); value_free = (refl, tt); sep_is = refl };
        number = 34;
        number_is = refl;
      },
      tt,
    ),
  ),
)

fields-WellFormed : WellFormed none fields
unfolding parse_tag is_fix_separator announced expect_after data_tag_for_length_tag parse_tag_from
    is_digit declared
fields-WellFormed = (
  record {
    tag_free = (refl, tt);
    sep_is = refl;
    value_ok = (refl, (refl, (refl, (refl, (refl, (refl, (refl, tt)))))));
  },
  (
    record { tag_free = (refl, (refl, tt)); sep_is = refl; value_ok = (refl, tt) },
    (record { tag_free = (refl, (refl, tt)); sep_is = refl; value_ok = (refl, tt) }, tt),
  ),
)

parse_line-encode_example :
    (ev : Event) × (MessageLog.parse_line day_clock adapter
        (pos 9)
        (stamp ++ (codes " : " ++ encode fields))
      ≡ some ev)
    × (ev.engine_ts_ns ≡ pos 61000000000)
    × (ev.session_id ≡ session_id adapter.cfg)
    × (ev.msg_type ≡ codes "0")
    × (ev.msg_seq_num ≡ 7)
    × IsDirection (codes "US") (first_value 49 fields) ev.direction
    × (ev.raw ≡ encode (map (masked_field true) fields))
unfolding parse_fix_timestamp find_index to_int to_string
parse_line-encode_example =
    parse_line-encode adapter (pos 9) day_clock stamp fields (drop 5 (encode fields)) (codes "0")
      (omega arith) (Free-find_index is_blank stamp refl) refl refl refl fields-IsParsed
      fields-WellFormed refl refl (omega arith)

-- a log that is polled in the middle of a line, and rotated with a line that no poll saw
abbrev files : List (ℕ × List Bytes × Bytes)
files =
    (7, codes "noise\nmo" ∷ codes "re\r\n" ∷ [], codes "late\n")
    ∷ (8, codes "again\n" ∷ [], [])
    ∷ []

abbrev at_nine : Option File → Turn
at_nine file = record { running = true; file = file; clock = λ n. pos 9 }

abbrev turns : List Turn
turns =
    at_nine (some (record { file_id = 7; content = codes "noise\nmo" }))
    ∷ at_nine (some (record { file_id = 7; content = codes "noise\nmore\r\n" }))
    ∷ at_nine (some (record { file_id = 8; content = codes "again\n" }))
    ∷ []

abbrev polled : Progress
polled =
    (run (MessageLog.on_line day_clock adapter) true turns (start true none new_adapter)).progress

-- a search that knows one pattern only
abbrev resets : Bytes → Bytes → Option Match
resets pattern body =
    if starts_with (codes "Sequence") pattern
    then (if starts_with (codes "Sequence reset") body then some (body ∷ []) else none)
    else none

abbrev no_number : Bytes → Option ℕ
no_number s = none

-- what is made of a line that a rule matches
abbrev reset : Event
reset =
    apply_rules resets no_number rules (codes "Sequence reset") (
      fresh_event default_session (pos 9) (pos 0) (codes "Sequence reset") (codes "Sequence reset"))
