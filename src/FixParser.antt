-- ===== src/FixParser.antt =====
-- fix_monitor/src/fix_parser.cpp: FIX bodies, timestamps and log line prefixes.
pub mod Fields
pub mod Lines
mod Tests
use fix_mon.Prelude.{
  ℕ, zero, suc, ◌+◌, ◌-◌, ◌*◌, ◌%◌, ◌^◌, ℤ, pos, negsuc, ◌+ℤ◌, ◌-ℤ◌, ◌*ℤ◌, wrap64, int32,
  is_nonzero, Bool, true, false, not, ◌&&◌, ◌||◌, Option, none, some, List, [], ◌∷◌, ◌++◌, Bytes,
  codes, length, get_or, take, drop, leb, ltb, ◌==◌, if◌then◌else◌, is_digit, eq_text, find_index,
  find_text, drop_while, drop_while_end,
}

unfoldable pub is_separator : ℕ → Bool
is_separator c = c == 1 || c == b'|'

-- The accumulator of `to_int`, as a 32-bit pattern: an overflow, which C++ leaves undefined, wraps.
unfoldable pub digits_u32 : ℕ → Bytes → ℕ
digits_u32 v [] = v
digits_u32 v (c ∷ cs) = if is_digit c then digits_u32 ((v * 10 + (c - b'0')) % 2 ^ 32) cs else v

-- The digits at the front; -1 if there is none.
unfoldable pub to_int : Bytes → ℤ
unfolding digits_u32 is_digit
to_int [] = negsuc 0
to_int (c ∷ cs) = if is_digit c then int32 (digits_u32 0 (c ∷ cs)) else negsuc 0

-- `std::unordered_map<int, std::string_view>`; only tags at or above 0 are stored.
abbrev pub TagMap : Type 0
TagMap = List (ℕ × Bytes)

unfoldable pub find : ℕ → TagMap → Option Bytes
find k [] = none
find k ((j, v) ∷ m) = if j == k then some v else find k m

-- `emplace` keeps a value that is there.
unfoldable pub emplace : ℕ → Bytes → TagMap → TagMap
emplace k v [] = (k, v) ∷ []
emplace k v ((j, w) ∷ m) = if j == k then (j, w) ∷ m else (j, w) ∷ emplace k v m

-- What one round of the loop in `parse_fix_fields` meets at the front of the rest of the body.
pub data Scan : Type 0 where
  finished : Scan
  skipped : Bytes → Scan
  field : ℕ → Bytes → Bytes → Scan
  last_field : ℕ → Bytes → Scan

skip_field : Bytes → Scan
skip_field rest = elim (find_index is_separator rest) [
  | none ↦ Scan.finished
  | some sep ↦ Scan.skipped (drop (suc sep) rest)
]

take_value : ℕ → Bytes → Scan
take_value tag v = elim (find_index is_separator v) [
  | none ↦ Scan.last_field tag v
  | some vend ↦ Scan.field tag (take vend v) (drop (suc vend) v)
]

scan_at : Bytes → ℕ → Scan
scan_at rest eq = elim (to_int (take eq rest)) [
  | pos tag ↦ take_value tag (drop (suc eq) rest)
  | negsuc _ ↦ skip_field rest
]

next_field : Bytes → Scan
next_field rest = elim (find_index (λ c. c == b'=') rest) [
  | none ↦ Scan.finished
  | some eq ↦ scan_at rest eq
]

-- The loop, on fuel; `none` means that the fuel ran out.
pub parse_loop : ℕ → Bytes → TagMap → Bool → Option (Bool × TagMap)
parse_loop zero rest out found = none
parse_loop (suc fuel) rest out found = elim (next_field rest) [
  | Scan.finished ↦ some (found, out)
  | Scan.skipped r ↦ parse_loop fuel r out found
  | Scan.field tag v r ↦ parse_loop fuel r (emplace tag v out) true
  | Scan.last_field tag v ↦ some (true, emplace tag v out)
]

abbrev run_out : Option (Bool × TagMap) → Bool × TagMap
run_out none = (false, [])
run_out (some r) = r

-- The result, and what `out` holds afterwards.
unfoldable pub parse_fix_fields : Bytes → Bool × TagMap
unfolding parse_loop next_field scan_at skip_field take_value to_int find_index is_separator emplace
parse_fix_fields body = run_out (parse_loop (suc (length body)) body [] false)

-- `std::tm`, the fields that are set
pub record Tm : Type 0 where
  pub tm_year : ℤ
  pub tm_mon : ℤ
  pub tm_mday : ℤ
  pub tm_hour : ℤ
  pub tm_min : ℤ
  pub tm_sec : ℤ

-- The lambda `num`; `none` for its -1.
unfoldable pub num_from : ℕ → Bytes → Option ℕ
num_from v [] = some v
num_from v (c ∷ cs) = if is_digit c then num_from (v * 10 + (c - b'0')) cs else none

unfoldable pub num : Bytes → ℕ → ℕ → Option ℕ
unfolding num_from is_digit
num ts from len = num_from 0 (take len (drop from ts))

abbrev pub nanos : ℕ
nanos = 1_000_000_000

-- `left` is 9 less the digits read; the last loop scales by ten for each of these.
unfoldable pub fraction : ℕ → ℕ → Bytes → ℕ
fraction frac zero cs = frac
fraction frac (suc left) [] = frac * 10 ^ suc left
fraction frac (suc left) (c ∷ cs) =
    if is_digit c then fraction (frac * 10 + (c - b'0')) left cs else frac * 10 ^ suc left

-- the nanoseconds behind the seconds
unfoldable pub fraction_of : Bytes → ℕ
unfolding fraction is_digit
fraction_of ts =
    if ltb 18 (length ts) && get_or ts 17 0 == b'.' then fraction 0 9 (drop 18 ts) else 0

unfoldable pub parse_tm : Bytes → Option Tm
unfolding num
parse_tm ts = elim (num ts 0 4) [
  | none ↦ none
  | some year ↦ elim (num ts 4 2) [
    | none ↦ none
    | some mon ↦ elim (num ts 6 2) [
      | none ↦ none
      | some day ↦ elim (num ts 9 2) [
        | none ↦ none
        | some hour ↦ elim (num ts 12 2) [
          | none ↦ none
          | some min ↦ elim (num ts 15 2) [
            | none ↦ none
            | some sec ↦ some (record {
              tm_year = pos year -ℤ pos 1900;
              tm_mon = pos mon -ℤ pos 1;
              tm_mday = pos day;
              tm_hour = pos hour;
              tm_min = pos min;
              tm_sec = pos sec;
            })
          ]
        ]
      ]
    ]
  ]
]

-- the marks that a timestamp has at fixed places
unfoldable pub has_shape : Bytes → Bool
has_shape ts =
    leb 17 (length ts) && get_or ts 8 0 == b'-' && get_or ts 11 0 == b':' && get_or ts 14 0 == b':'

abbrev pub is_blank : ℕ → Bool
is_blank c = c == b' ' || c == b'\t'

-- `timegm` is the C library's; it answers -1 for a time that it cannot represent. Nanoseconds that
-- overflow the `int64_t`, of a year after 2262, wrap round.
module _ (timegm : Tm → ℤ) where
  ns_of : Bytes → ℤ → ℤ
  ns_of ts (negsuc zero) = pos 0
  ns_of ts epoch = wrap64 (epoch *ℤ pos nanos +ℤ pos (fraction_of ts))

  unfoldable pub parse_fix_timestamp : Bytes → ℤ
  unfolding has_shape parse_tm ns_of fraction_of wrap64 ◌*ℤ◌ ◌+ℤ◌ ◌-ℤ◌
  parse_fix_timestamp ts =
      if has_shape ts
      then (elim (parse_tm ts) [ none ↦ pos 0 | some tm ↦ ns_of ts (timegm tm) ])
      else pos 0

  -- at the separator: the timestamp, and the payload without its leading blanks
  split_at : Bytes → ℕ → ℤ × Bytes
  split_at line sep =
      let parsed = parse_fix_timestamp (drop_while_end is_blank (take sep line)) in
      if is_nonzero parsed
      then (
        parsed,
        drop_while is_blank
            (drop (if leb (sep + 3) (length line) then sep + 3 else length line) line),
      )
      else (pos 0, line)

  -- the builds that omit the space padding
  split_at_colon : Bytes → ℤ × Bytes
  split_at_colon line = elim (find_index (λ c. c == b':') line) [
    | none ↦ (pos 0, line)
    | some sep ↦ split_at line sep
  ]

  unfoldable pub split_log_line : Bytes → ℤ × Bytes
  unfolding split_at split_at_colon parse_fix_timestamp find_text find_index drop_while
      drop_while_end
  split_log_line line = elim (find_text (codes " : ") line) [
    | none ↦ split_at_colon line
    | some sep ↦ if ltb 32 sep then split_at_colon line else split_at line sep
  ]

abbrev msg_type_names : List (Bytes × Bytes)
msg_type_names =
    (codes "0", codes "Heartbeat")
    ∷ (codes "1", codes "TestRequest")
    ∷ (codes "2", codes "ResendRequest")
    ∷ (codes "3", codes "Reject")
    ∷ (codes "4", codes "SequenceReset")
    ∷ (codes "5", codes "Logout")
    ∷ (codes "A", codes "Logon")
    ∷ (codes "D", codes "NewOrderSingle")
    ∷ (codes "F", codes "OrderCancelRequest")
    ∷ (codes "G", codes "OrderCancelReplaceRequest")
    ∷ (codes "8", codes "ExecutionReport")
    ∷ (codes "9", codes "OrderCancelReject")
    ∷ (codes "j", codes "BusinessMessageReject")
    ∷ (codes "V", codes "MarketDataRequest")
    ∷ (codes "W", codes "MarketDataSnapshot")
    ∷ (codes "X", codes "MarketDataIncrementalRefresh")
    ∷ (codes "Y", codes "MarketDataRequestReject")
    ∷ (codes "AB", codes "NewOrderMultileg")
    ∷ (codes "AE", codes "TradeCaptureReport")
    ∷ []

-- the first name listed for the text
name_in : List (Bytes × Bytes) → Bytes → Bytes
name_in [] t = codes "Other"
name_in ((k, n) ∷ rest) t = if eq_text t k then n else name_in rest t

unfoldable pub msg_type_name : Bytes → Bytes
unfolding name_in eq_text
msg_type_name = name_in msg_type_names
