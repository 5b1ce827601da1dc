-- ===== src/Config/Load.antt =====
-- The ini loader of fix_monitor/src/config.cpp. `none` stands for a load that does not come back with
-- a configuration: one that throws, or whose queue size is too large for `next_pow2` to end.
use fix_mon.Prelude.{
  ℕ, suc, ◌-◌, ◌%◌, ℤ, pos, negsuc, Bool, true, false, not, ◌&&◌, ◌||◌, Option, none, some, List,
  [], ◌∷◌, ◌++◌, Bytes, codes, length, take, drop, get_or, is_empty, ◌==◌, if◌then◌else◌, eq_text,
  find_index, split, stoi, stoul,
}
use mathlib.Core.Option
use fix_mon.Config.Session.{SessionConfig, default_session, parse_tristate}
use fix_mon.Config.Values.{strip_comment, trim, to_bool, next_pow2}

pub record AppConfig : Type 0 where
  pub db_path : Bytes
  pub metrics_port : ℕ
  pub queue_capacity : ℕ
  pub batch_size : ℕ
  pub batch_flush_ms : ℤ
  pub poll_interval_ms : ℤ
  pub from_beginning : Bool
  pub stale_after_multiple : ℤ
  pub snapshot_interval_s : ℤ
  pub queue_full_wait_ms : ℤ
  pub mask_message_bodies : Bool
  pub retention_days : ℤ
  pub quickfix_configs : List Bytes
  pub sessions : List SessionConfig
  pub notes : List Bytes

-- `AppConfig{}`
abbrev pub default_config : AppConfig
default_config = record {
  db_path = codes "fixmon.db";
  metrics_port = 9109;
  queue_capacity = 65536;
  batch_size = 500;
  batch_flush_ms = pos 200;
  poll_interval_ms = pos 100;
  from_beginning = false;
  stale_after_multiple = pos 2;
  snapshot_interval_s = pos 30;
  queue_full_wait_ms = pos 250;
  mask_message_bodies = true;
  retention_days = pos 0;
  quickfix_configs = [];
  sessions = [];
  notes = [];
}

-- the local variables of the loop
pub record Loading : Type 0 where
  pub cfg : AppConfig
  pub current : SessionConfig
  pub in_session : Bool

-- the cast to `uint16_t`
unfoldable pub u16 : ℤ → ℕ
u16 (pos n) = n % 65536
u16 (negsuc n) = 65535 - n % 65536

unfoldable pub commit_session : Loading → Option Loading
commit_session l =
    if not l.in_session
    then some l
    else if is_empty l.current.sender_comp_id || is_empty l.current.target_comp_id
    then none
    else let begin =
        if is_empty l.current.begin_string then codes "FIX.4.4" else l.current.begin_string in
      some (record l {
        cfg = record l.cfg {
          sessions = l.cfg.sessions ++ (record l.current { begin_string = begin }) ∷ [];
        };
        current = default_session;
      })

abbrev set_heartbeat : SessionConfig → ℤ → SessionConfig
set_heartbeat s v = record s { heartbeat_interval = v; heartbeat_explicit = true }

-- a key of a `[session]` block; other keys are left alone
unfoldable pub set_session_key : Bytes → Bytes → SessionConfig → Option SessionConfig
set_session_key key val s =
    let is = λ (name : Bytes). eq_text key name in
    if is (codes "begin_string")
    then some (record s { begin_string = val })
    else if is (codes "sender_comp_id")
    then some (record s { sender_comp_id = val })
    else if is (codes "target_comp_id")
    then some (record s { target_comp_id = val })
    else if is (codes "message_log")
    then some (record s { message_log_path = val })
    else if is (codes "event_log")
    then some (record s { event_log_path = val })
    else if is (codes "session_qualifier")
    then some (record s { session_qualifier = val })
    else if is (codes "sender_sub_id")
    then some (record s { sender_sub_id = val })
    else if is (codes "target_sub_id")
    then some (record s { target_sub_id = val })
    else if is (codes "reset_on_logon")
    then some (record s { reset_on_logon = parse_tristate val })
    else if is (codes "reset_on_logout")
    then some (record s { reset_on_logout = parse_tristate val })
    else if is (codes "reset_on_disconnect")
    then some (record s { reset_on_disconnect = parse_tristate val })
    else if is (codes "persist_messages")
    then some (record s { persist_messages = parse_tristate val })
    else if is (codes "heartbeat_interval")
    then Option.map (set_heartbeat s) (stoi val)
    else some s

-- the paths between the commas
unfoldable pub add_paths : List Bytes → List Bytes → List Bytes
add_paths paths [] = paths
add_paths paths (p ∷ ps) = add_paths (if is_empty (trim p) then paths else paths ++ trim p ∷ []) ps

-- `next_pow2`, whose loop runs 64 times at most if it ends
abbrev capacity_for : ℕ → Option ℕ
capacity_for v = next_pow2 64 v

abbrev with_capacity : AppConfig → Option ℕ → Option AppConfig
with_capacity c none = none
with_capacity c (some v) = Option.map (λ n. record c { queue_capacity = n }) (capacity_for v)

-- a key outside of the blocks
unfoldable pub set_app_key : Bytes → Bytes → AppConfig → Option AppConfig
set_app_key key val c =
    let is = λ (name : Bytes). eq_text key name in
    if is (codes "db_path")
    then some (record c { db_path = val })
    else if is (codes "metrics_port")
    then Option.map (λ v. record c { metrics_port = u16 v }) (stoi val)
    else if is (codes "queue_size")
    then with_capacity c (stoul val)
    else if is (codes "queue_full_wait_ms")
    then Option.map (λ v. record c { queue_full_wait_ms = v }) (stoi val)
    else if is (codes "batch_size")
    then Option.map (λ v. record c { batch_size = v }) (stoul val)
    else if is (codes "batch_flush_ms")
    then Option.map (λ v. record c { batch_flush_ms = v }) (stoi val)
    else if is (codes "poll_interval_ms")
    then Option.map (λ v. record c { poll_interval_ms = v }) (stoi val)
    else if is (codes "from_beginning")
    then some (record c { from_beginning = to_bool val })
    else if is (codes "stale_after_multiple")
    then Option.map (λ v. record c { stale_after_multiple = v }) (stoi val)
    else if is (codes "snapshot_interval_s")
    then Option.map (λ v. record c { snapshot_interval_s = v }) (stoi val)
    else if is (codes "mask_message_bodies")
    then some (record c { mask_message_bodies = to_bool val })
    else if is (codes "retention_days")
    then Option.map (λ v. record c { retention_days = v }) (stoi val)
    else if is (codes "quickfix_config")
    then some (record c { quickfix_configs = add_paths c.quickfix_configs (split val b',') })
    else some c

unfoldable pub load_key : Bytes → Bytes → Loading → Option Loading
load_key key val l =
    if l.in_session
    then Option.map (λ s. record l { current = s }) (set_session_key key val l.current)
    else Option.map (λ c. record l { cfg = c }) (set_app_key key val l.cfg)

unfoldable pub load_section : Bytes → Loading → Option Loading
load_section section l =
    Option.map (λ (m : Loading). record m { in_session = eq_text section (codes "session") })
      (commit_session l)

-- a line, trimmed
unfoldable pub load_text : Bytes → Loading → Option Loading
load_text [] l = some l
load_text (c ∷ t) l =
    if c == b'#' || c == b';'
    then some l
    else if c == b'[' && get_or (c ∷ t) (length t) 0 == b']'
    then load_section (take (length t - 1) t) l
    else elim (find_index (λ d. d == b'=') (c ∷ t)) [
      | none ↦ none
      | some eq ↦ load_key (trim (take eq (c ∷ t))) (trim (strip_comment (drop (suc eq) (c ∷ t)))) l
    ]

unfoldable pub load_lines : List Bytes → Loading → Option Loading
load_lines [] l = some l
load_lines (x ∷ xs) l = elim (load_text (trim x) l) [ none ↦ none | some m ↦ load_lines xs m ]
