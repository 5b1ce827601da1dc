-- ===== src/FixParser/Tests.antt =====
-- Runs of the parser, and concrete uses of the theorems about it.
use fix_mon.Prelude.{
  All, Free-find_index, ℕ, ℤ, pos, ◌+ℤ◌, ◌*ℤ◌, ◌≡◌, ◌==◌, ◌||◌, refl, true, false, some, List, [],
  ◌∷◌, ◌++◌, Bytes, codes, length, suc, find_text, find_index, drop_while, arith,
}
use fix_mon.Body.{Field, encode}
use fix_mon.FixParser.{
  is_separator, to_int, find, parse_loop, parse_fix_fields, Tm, parse_tm, num, num_from,
  parse_fix_timestamp, split_log_line, msg_type_name,
}
use fix_mon.FixParser.Fields.{
  first_value, IsParsed, parse_fix_fields_total, parse_fix_fields-encode,
}
use fix_mon.FixParser.Lines.{split_log_line_unpadded, split_log_line-append}

-- a heartbeat with its number given twice
abbrev heartbeat : List Field
heartbeat =
    record { tag = codes "35"; value = codes "0"; sep = 1 }
    ∷ record { tag = codes "34"; value = codes "7"; sep = b'|' }
    ∷ record { tag = codes "34"; value = codes "8"; sep = 1 }
    ∷ []

-- a clock whose months have 31 days each
abbrev flat_clock : Tm → ℤ
flat_clock tm =
    ((tm.tm_year *ℤ pos 372 +ℤ tm.tm_mon *ℤ pos 31 +ℤ tm.tm_mday) *ℤ pos 86400)
    +ℤ (tm.tm_hour *ℤ pos 3600 +ℤ tm.tm_min *ℤ pos 60 +ℤ tm.tm_sec)

abbrev stamp : Bytes
stamp = codes "20240102-09:30:01.250"

msg_type_name-order : msg_type_name (codes "D") ≡ codes "NewOrderSingle"
unfolding msg_type_name
msg_type_name-order = refl

parse_fix_fields-heartbeat :
    parse_fix_fields (codes "35=0|x=1|34=7|") ≡ (true, (35, codes "0") ∷ (34, codes "7") ∷ [])
unfolding parse_fix_fields parse_loop
parse_fix_fields-heartbeat = refl

parse_fix_fields_total_example :
    parse_loop (suc (length (codes "35=0|34"))) (codes "35=0|34") [] false
    ≡ some (parse_fix_fields (codes "35=0|34"))
parse_fix_fields_total_example = parse_fix_fields_total (codes "35=0|34")

heartbeat-IsParsed : All IsParsed heartbeat
unfolding is_separator to_int
heartbeat-IsParsed = (
  record {
    field = record { tag_free = (refl, (refl, tt)); value_free = (refl, tt); sep_is = refl };
    number = 35;
    number_is = refl;
  },
  (
    record {
      field = record { tag_free = (refl, (refl, tt)); value_free = (refl, tt); sep_is = refl };
      number = 34;
      number_is = refl;
    },
    (
      record {
        field = record { tag_free = (refl, (refl, tt)); value_free = (refl, tt); sep_is = refl };
        number = 34;
        number_is = refl;
      },
      tt,
    ),
  ),
)

parse_fix_fields-encode_example :
    ((parse_fix_fields (encode heartbeat)).0 ≡ true)
    × ((k : ℕ) → find k (parse_fix_fields (encode heartbeat)).1 ≡ first_value k heartbeat)
parse_fix_fields-encode_example = parse_fix_fields-encode heartbeat heartbeat-IsParsed

parse_fix_timestamp-stamp : parse_fix_timestamp flat_clock stamp ≡ pos 3985666201250000000
unfolding parse_fix_timestamp parse_tm num num_from
parse_fix_timestamp-stamp = refl

split_log_line-padded :
    split_log_line flat_clock (codes "20240102-09:30:01.250 : 35=0|")
    ≡ (pos 3985666201250000000, codes "35=0|")
unfolding split_log_line
split_log_line-padded = refl

split_log_line_unpadded_example :
    split_log_line flat_clock (codes "20240102-09:30:01.250:35=0|")
    ≡ (pos 0, codes "20240102-09:30:01.250:35=0|")
unfolding find_text
split_log_line_unpadded_example =
    split_log_line_unpadded flat_clock (codes "20240102-09:30:01.250:35=0|") (λ i e. cc)

split_log_line-append_example :
    split_log_line flat_clock (stamp ++ (codes " : " ++ codes "35=0|"))
    ≡ (pos 3985666201250000000, codes "35=0|")
unfolding parse_fix_timestamp drop_while find_index
split_log_line-append_example =
    split_log_line-append flat_clock stamp (codes "35=0|") (omega arith)
      (Free-find_index (λ c. c == b' ' || c == b'\t') stamp refl) refl refl refl
