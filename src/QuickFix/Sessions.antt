-- ===== src/QuickFix/Sessions.antt =====
-- `sessions_from_quickfix` of fix_monitor/src/quickfix_config.cpp.
use fix_mon.Prelude.{
  ℕ, suc, ◌+◌, ◌-◌, ℤ, pos, Bool, true, false, not, ◌&&◌, ◌||◌, Option, none, some, List, [], ◌∷◌,
  ◌++◌, Bytes, codes, length, take, drop, is_empty, ◌==◌, ltb, if◌then◌else◌, eq_text, starts_with,
  find_text, drop_while_end,
}
use mathlib.Core.Option
use fix_mon.Config.Session.{SessionConfig, default_session, session_id}
use fix_mon.QuickFix.Dictionary.{Block, lower, get, get_int, get_bool}
use fix_mon.QuickFix.Reader.{Settings, parse_quickfix_settings}
use fix_mon.QuickFix.Logs.{FileSystem, EntryKind, ends_with, attach_logs, resolve_log_dir}

-- `none` where it throws
unfoldable pub load_quickfix_settings : FileSystem → Bytes → Option Settings
load_quickfix_settings fs path =
    Option.map (λ text. parse_quickfix_settings text path) (fs.read_file path)

abbrev is_slash : ℕ → Bool
is_slash c = c == b'/'

-- `path::parent_path` on a POSIX system
unfoldable pub parent_path : Bytes → Bytes
parent_path p =
    let dir = drop_while_end (λ c. not (is_slash c)) p in
    let stem = drop_while_end is_slash dir in
    if is_empty stem && not (is_empty dir) then codes "/" else stem

abbrev pub star : Bytes
star = codes "*"

unfoldable pub paired_in : List (Bytes × Bytes) → Bytes → Bytes → Bool
paired_in [] s t = false
paired_in ((a, b) ∷ ps) s t = eq_text a s && eq_text b t || paired_in ps s t

abbrev pub strip_begin : Bytes → Bytes → Bytes
strip_begin begin stem =
    if not (is_empty begin) && starts_with (begin ++ codes "-") stem
    then drop (length begin + 1) stem
    else stem

-- the two comp ids that the stem of a file name holds, if it fits the one that is known
unfoldable pub comp_ids : SessionConfig → Bytes → Option (Bytes × Bytes)
comp_ids sc stem =
    if eq_text sc.target_comp_id star
    then (let head = sc.sender_comp_id ++ codes "-" in
        if starts_with head stem then some (sc.sender_comp_id, drop (length head) stem) else none)
    else (let tail = codes "-" ++ sc.target_comp_id in
        if ltb (length tail) (length stem) && ends_with tail stem
        then some (take (length stem - length tail) stem, sc.target_comp_id)
        else none)

abbrev pub add_pair : Option (Bytes × Bytes) → List (Bytes × Bytes) → List (Bytes × Bytes)
add_pair none out = out
add_pair (some (s, t)) out =
    if is_empty s || (is_empty t || paired_in out s t) then out else out ++ (s, t) ∷ []

unfoldable pub discover_entry : SessionConfig → Bytes → List (Bytes × Bytes) → List (Bytes × Bytes)
discover_entry sc name out = elim (find_text (codes ".messages.") name) [
  | none ↦ out
  | some m ↦ add_pair (comp_ids sc (strip_begin sc.begin_string (take m name))) out
]

unfoldable pub discover_entries :
    SessionConfig → List (Bytes × EntryKind) → List (Bytes × Bytes) → List (Bytes × Bytes)
discover_entries sc [] out = out
discover_entries sc ((name, EntryKind.regular) ∷ es) out =
    discover_entries sc es (discover_entry sc name out)
discover_entries sc ((name, EntryKind.other) ∷ es) out = discover_entries sc es out
discover_entries sc ((name, EntryKind.failed) ∷ es) out = out

unfoldable pub discover_wildcard_comp_ids :
    FileSystem → Bytes → SessionConfig → List (Bytes × Bytes)
discover_wildcard_comp_ids fs dir sc =
    if not (fs.is_directory dir)
    then []
    else if eq_text sc.sender_comp_id star && eq_text sc.target_comp_id star
    then []
    else discover_entries sc (fs.entries dir) []

-- an interval that is not above 0 is 30 seconds
abbrev pub positive_or_30 : ℤ → ℤ
positive_or_30 (pos (suc n)) = pos (suc n)
positive_or_30 _ = pos 30

-- the session that a block describes, before its logs are looked for
unfoldable pub session_from_block : Bytes → Block → SessionConfig
session_from_block path block = record default_session {
  begin_string = get block (codes "BeginString") (codes "FIX.4.4");
  sender_comp_id = get block (codes "SenderCompID") [];
  target_comp_id = get block (codes "TargetCompID") [];
  session_qualifier = get block (codes "SessionQualifier") [];
  sender_sub_id = get block (codes "SenderSubID") [];
  sender_location_id = get block (codes "SenderLocationID") [];
  target_sub_id = get block (codes "TargetSubID") [];
  target_location_id = get block (codes "TargetLocationID") [];
  heartbeat_interval = positive_or_30 (get_int block (codes "HeartBtInt") (pos 30));
  connection_type = lower (get block (codes "ConnectionType") []);
  reconnect_interval = get_int block (codes "ReconnectInterval") (pos 0);
  start_time = get block (codes "StartTime") [];
  end_time = get block (codes "EndTime") [];
  file_store_path = get block (codes "FileStorePath") [];
  file_log_path = get block (codes "FileLogPath") [];
  reset_on_logon = get_bool block (codes "ResetOnLogon");
  reset_on_logout = get_bool block (codes "ResetOnLogout");
  reset_on_disconnect = get_bool block (codes "ResetOnDisconnect");
  persist_messages = get_bool block (codes "PersistMessages");
  origin = path;
  from_quickfix = true;
  redacted_settings = block.redacted_keys;
}

-- the sessions so far and the notes
pub record Derived : Type 0 where
  pub sessions : List SessionConfig
  pub notes : List Bytes

unfoldable pub note : Bytes → Derived → Derived
note what d = record d { notes = d.notes ++ what ∷ [] }

unfoldable pub push_session : SessionConfig × List Bytes → Derived → Derived
push_session (sc, notes) d = record { sessions = d.sessions ++ sc ∷ []; notes = notes }

-- one session for each pair of comp ids
unfoldable pub expand :
    FileSystem → Bytes → Bytes → SessionConfig → List (Bytes × Bytes) → Derived → Derived
expand fs path dir sc [] d = d
expand fs path dir sc ((sender, target) ∷ pairs) d =
    let one =
      attach_logs fs dir (record sc { sender_comp_id = sender; target_comp_id = target }) d.notes in
    expand fs path dir sc pairs (
      push_session
        (one.0, one.1 ++ (path ++ (codes ": wildcard expanded to " ++ session_id one.0)) ∷ []) d)

unfoldable pub add_wildcard : FileSystem → Bytes → Bytes → SessionConfig → Derived → Derived
add_wildcard fs path dir sc d = elim (discover_wildcard_comp_ids fs dir sc) [
  | [] ↦
      note
        (path
          ++ (codes ": wildcard session "
              ++ (session_id sc
                  ++ (codes " matched no logs under "
                      ++ (dir
                          ++ codes
                              "; add an explicit [session] block once the counterparty is known")))))
        d
  | p ∷ ps ↦ expand fs path dir sc (p ∷ ps) d
]

unfoldable pub add_session : FileSystem → Bytes → SessionConfig → Derived → Derived
add_session fs path sc d =
    if is_empty sc.sender_comp_id || is_empty sc.target_comp_id
    then note (path ++ codes ": [SESSION] without SenderCompID/TargetCompID, skipped") d
    else if is_empty sc.file_log_path
    then push_session
        (
          sc,
          d.notes
              ++ (path
                  ++ (codes ": "
                      ++ (session_id sc
                          ++ codes " has no FileLogPath - file logging is off, nothing to tail")))
                ∷ [],
        )
        d
    else let dir = resolve_log_dir fs sc.file_log_path (parent_path path) in
      let there = record sc { file_log_path = dir } in
      if eq_text sc.sender_comp_id star || eq_text sc.target_comp_id star
      then add_wildcard fs path dir there d
      else push_session (attach_logs fs dir there d.notes) d

unfoldable pub add_blocks : FileSystem → Bytes → List Block → Derived → Derived
add_blocks fs path [] d = d
add_blocks fs path (b ∷ bs) d =
    add_blocks fs path bs (add_session fs path (session_from_block path b) d)

unfoldable pub sessions_from_quickfix : FileSystem → Settings → List Bytes → Derived
sessions_from_quickfix fs settings notes =
    add_blocks fs settings.path settings.sessions
      (record { sessions = []; notes = notes ++ settings.warnings })
