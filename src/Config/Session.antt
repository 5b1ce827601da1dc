-- ===== src/Config/Session.antt =====
-- `TriState`, `SessionConfig` and what `SessionConfig` derives (fix_monitor/include/fixmon/config.hpp).
use fix_mon.Prelude.{
  ℕ, ℤ, pos, Bool, true, false, ◌||◌, ◌&&◌, List, [], ◌∷◌, ◌++◌, map, Bytes, codes, is_empty, ◌==◌,
  if◌then◌else◌, eq_text, to_lower,
}

pub data TriState : Type 0 where
  unknown no_ yes_ : TriState

unfoldable pub tristate_name : TriState → Bytes
tristate_name TriState.yes_ = codes "yes"
tristate_name TriState.no_ = codes "no"
tristate_name TriState.unknown = codes "unknown"

of_letter : ℕ → TriState
of_letter c =
    if c == b'Y' || (c == b'y' || c == b'1')
    then TriState.yes_
    else if c == b'N' || (c == b'n' || c == b'0')
    then TriState.no_
    else TriState.unknown

of_word : Bytes → TriState
of_word l =
    if eq_text l (codes "true") || eq_text l (codes "yes")
    then TriState.yes_
    else if eq_text l (codes "false") || eq_text l (codes "no")
    then TriState.no_
    else TriState.unknown

unfoldable pub parse_tristate : Bytes → TriState
unfolding of_letter of_word eq_text to_lower
parse_tristate (c ∷ []) = of_letter c
parse_tristate v = of_word (map to_lower v)

pub record SessionConfig : Type 0 where
  pub begin_string : Bytes
  pub sender_comp_id : Bytes
  pub target_comp_id : Bytes
  pub message_log_path : Bytes
  pub event_log_path : Bytes
  pub heartbeat_interval : ℤ
  pub heartbeat_explicit : Bool
  pub session_qualifier : Bytes
  pub sender_sub_id : Bytes
  pub sender_location_id : Bytes
  pub target_sub_id : Bytes
  pub target_location_id : Bytes
  pub connection_type : Bytes
  pub file_log_path : Bytes
  pub file_store_path : Bytes
  pub start_time : Bytes
  pub end_time : Bytes
  pub reconnect_interval : ℤ
  pub origin : Bytes
  pub from_quickfix : Bool
  pub redacted_settings : List Bytes
  pub reset_on_logon : TriState
  pub reset_on_logout : TriState
  pub reset_on_disconnect : TriState
  pub persist_messages : TriState

-- `SessionConfig{}`
abbrev pub default_session : SessionConfig
default_session = record {
  begin_string = [];
  sender_comp_id = [];
  target_comp_id = [];
  message_log_path = [];
  event_log_path = [];
  heartbeat_interval = pos 30;
  heartbeat_explicit = false;
  session_qualifier = [];
  sender_sub_id = [];
  sender_location_id = [];
  target_sub_id = [];
  target_location_id = [];
  connection_type = [];
  file_log_path = [];
  file_store_path = [];
  start_time = [];
  end_time = [];
  reconnect_interval = pos 0;
  origin = [];
  from_quickfix = false;
  redacted_settings = [];
  reset_on_logon = TriState.unknown;
  reset_on_logout = TriState.unknown;
  reset_on_disconnect = TriState.unknown;
  persist_messages = TriState.unknown;
}

unfoldable pub session_id : SessionConfig → Bytes
session_id c =
    let id =
      c.begin_string ++ (codes ":" ++ (c.sender_comp_id ++ (codes "->" ++ c.target_comp_id))) in
    if is_empty c.session_qualifier then id else id ++ (codes ":" ++ c.session_qualifier)

abbrev pub is_yes : TriState → Bool
is_yes TriState.yes_ = true
is_yes _ = false

abbrev pub is_no : TriState → Bool
is_no TriState.no_ = true
is_no _ = false

-- the four answers of `seq_reset_policy`
abbrev pub reset_each_logon : Bytes
reset_each_logon = codes "reset_each_logon"

abbrev pub reset_each_logout : Bytes
reset_each_logout = codes "reset_each_logout"

abbrev pub persistent : Bytes
persistent = codes "persistent"

abbrev pub unknown_policy : Bytes
unknown_policy = codes "unknown"

unfoldable pub seq_reset_policy : SessionConfig → Bytes
seq_reset_policy c =
    if is_yes c.reset_on_logon
    then reset_each_logon
    else if is_yes c.reset_on_logout || is_yes c.reset_on_disconnect
    then reset_each_logout
    else if is_no c.reset_on_logon && (is_no c.reset_on_logout && is_no c.reset_on_disconnect)
    then persistent
    else unknown_policy

unfoldable pub resend_capability : SessionConfig → Bytes
resend_capability c = elim c.persist_messages [
  | TriState.yes_ ↦ codes "full"
  | TriState.no_ ↦ codes "gap_fill_only"
  | TriState.unknown ↦ codes "unknown"
]
