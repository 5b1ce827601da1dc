-- ===== src/Config/Import.antt =====
-- How the sessions of the engine's settings come into the configuration
-- (fix_monitor/src/config.cpp): the import, and the two ways to a configuration.
use fix_mon.Prelude.{
  false, not, ◌&&◌, Option, none, some, List, [], ◌∷◌, ◌++◌, Bytes, codes, is_empty, if◌then◌else◌,
  eq_text, get_lines,
}
use fix_mon.Config.Session.{SessionConfig, default_session, session_id}
use fix_mon.Config.Merge.{fill_from_quickfix}
use fix_mon.Config.Load.{AppConfig, Loading, default_config, commit_session, load_lines}
use fix_mon.QuickFix.Reader.{Settings}
use fix_mon.QuickFix.Logs.{FileSystem, join_path}
use fix_mon.QuickFix.Sessions.{parent_path, load_quickfix_settings, sessions_from_quickfix}

unfoldable pub resolve_against : FileSystem → Bytes → Bytes → Bytes
resolve_against fs path base_dir =
    if fs.exists path
    then path
    else if not (is_empty base_dir) && fs.exists (join_path base_dir path)
    then join_path base_dir path
    else path

-- `find_if` by the session id
unfoldable pub find_session : Bytes → List SessionConfig → Option SessionConfig
find_session id [] = none
find_session id (s ∷ ss) = if eq_text (session_id s) id then some s else find_session id ss

-- the first session of that id filled up, or a new one at the end
unfoldable pub merge_session : SessionConfig → List SessionConfig → List SessionConfig
merge_session d [] = d ∷ []
merge_session d (s ∷ ss) =
    if eq_text (session_id s) (session_id d)
    then fill_from_quickfix s d ∷ ss
    else s ∷ merge_session d ss

unfoldable pub import_notes : Bytes → SessionConfig → Option SessionConfig → List Bytes
import_notes path d none = (codes "imported " ++ (session_id d ++ (codes " from " ++ path))) ∷ []
import_notes path d (some s) =
    (codes "merged engine settings into " ++ (session_id d ++ (codes " from " ++ path)))
    ∷ (if not (is_empty s.message_log_path) && not (eq_text s.message_log_path d.message_log_path)
        then (codes "using [session] log paths for "
            ++ (session_id d
                ++ (codes "; FileLogPath from "
                    ++ (path ++ codes " was not usable from here and is ignored"))))
          ∷ []
        else [])

unfoldable pub import_session : Bytes → SessionConfig → AppConfig → AppConfig
import_session path d c = record c {
  notes = c.notes ++ import_notes path d (find_session (session_id d) c.sessions);
  sessions = merge_session d c.sessions;
}

unfoldable pub import_sessions : Bytes → List SessionConfig → AppConfig → AppConfig
import_sessions path [] c = c
import_sessions path (d ∷ ds) c = import_sessions path ds (import_session path d c)

unfoldable pub import_settings : FileSystem → Bytes → Settings → AppConfig → AppConfig
import_settings fs path settings c =
    let derived = sessions_from_quickfix fs settings c.notes in
    import_sessions path derived.sessions (record c { notes = derived.notes })

-- `none` where a file cannot be opened, which throws
unfoldable pub import_paths : FileSystem → Bytes → List Bytes → AppConfig → Option AppConfig
import_paths fs base_dir [] c = some c
import_paths fs base_dir (raw ∷ raws) c =
    let path = resolve_against fs raw base_dir in
    elim (load_quickfix_settings fs path) [
      | none ↦ none
      | some settings ↦ import_paths fs base_dir raws (import_settings fs path settings c)
    ]

unfoldable pub import_quickfix_configs : FileSystem → Bytes → AppConfig → Option AppConfig
import_quickfix_configs fs base_dir c = import_paths fs base_dir c.quickfix_configs c

abbrev with_sessions : Option AppConfig → Option AppConfig
with_sessions none = none
with_sessions (some c) = if is_empty c.sessions then none else some c

-- `none` where it throws, for a file that cannot be opened or for want of a session
unfoldable pub finalize : FileSystem → Bytes → AppConfig → Option AppConfig
finalize fs base_dir c = with_sessions (import_quickfix_configs fs base_dir c)

unfoldable pub add_given : List Bytes → List Bytes → List Bytes
add_given paths [] = paths
add_given paths (p ∷ ps) = add_given (if is_empty p then paths else paths ++ p ∷ []) ps

-- the file read to its end, the last block included
unfoldable pub read_ini : Bytes → Option Loading
read_ini text =
    elim (load_lines (get_lines text)
      (record { cfg = default_config; current = default_session; in_session = false })) [
        | none ↦ none
        | some l ↦ commit_session l
      ]

abbrev finish_load : FileSystem → Bytes → List Bytes → Option Loading → Option AppConfig
finish_load fs path extra none = none
finish_load fs path extra (some l) =
    finalize fs (parent_path path)
      (record l.cfg { quickfix_configs = add_given l.cfg.quickfix_configs extra })

unfoldable pub load_config : FileSystem → Bytes → List Bytes → Option AppConfig
load_config fs path extra = elim (fs.read_file path) [
  | none ↦ none
  | some text ↦ finish_load fs path extra (read_ini text)
]

unfoldable pub config_from_quickfix : FileSystem → List Bytes → Option AppConfig
config_from_quickfix fs paths = finalize fs [] (record default_config { quickfix_configs = paths })
