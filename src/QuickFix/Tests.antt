-- ===== src/QuickFix/Tests.antt =====
-- Runs of the reader of the engine's settings, and concrete uses of the theorems about it.
use fix_mon.Prelude.{
  ℤ, false, none, some, [], ◌∷◌, Bytes, codes, ◌==◌, Free, All, unlines, ◌≡◌, refl, map, drop_while,
  drop_while_end, to_lower, find_text, starts_with, eq_text, stoi, to_string,
}
use fix_mon.Prelude.Dict
use fix_mon.Config.Values.{trim}
use fix_mon.Config.Session.{SessionConfig}
use fix_mon.Redact.Keys.{is_sensitive_key, is_sensitive_name, fold, listed, holds, contains}
use fix_mon.Config.Merge.{named_in}
use fix_mon.QuickFix.Dictionary.{get_int, get, lower, find_setting}
use fix_mon.QuickFix.Reader.{Settings, parse_quickfix_settings}
use fix_mon.QuickFix.Secrets.{IsName, setting_line, parse_quickfix_settings-secret}
use fix_mon.QuickFix.Logs.{
  FileSystem, attach_logs, swap_log_kind, find_last, find_log, join_path, attach_found,
  resolve_quickfix_log, scan_for_log, resolve_log_dir, watch, add_prefix, add_prefixes,
  quickfix_log_prefixes,
}
use fix_mon.QuickFix.Sessions.{
  sessions_from_quickfix, parent_path, add_blocks, add_session, session_from_block, push_session,
}
use fix_mon.QuickFix.Usable.{IsUsable, sessions_from_quickfix-IsUsable}

abbrev origin : Bytes
origin = codes "e.cfg"

number_texts : (stoi (codes " -12x") ≡ some (ℤ.negsuc 11)) × (to_string 1204 ≡ codes "1204")
unfolding stoi drop_while to_string
number_texts = (refl, refl)

swap_log_kind-event :
    swap_log_kind (codes "a.event.b.event.log") (codes "event") (codes "messages")
    ≡ codes "a.event.b.messages.log"
unfolding swap_log_kind find_last starts_with
swap_log_kind-event = refl

-- the line `Salt = a` under two margins
salt-IsName : IsName (codes " ") b'S' (codes "alt ")
unfolding trim drop_while drop_while_end is_sensitive_key is_sensitive_name fold to_lower listed
    holds contains find_text starts_with eq_text
salt-IsName = record {
  margin = (refl, tt);
  no_margin = refl;
  no_comment = refl;
  no_section = refl;
  no_equals = (refl, (refl, (refl, (refl, (refl, tt)))));
  secret = refl;
}

session-Free : Free (λ d. d == b'\n') (codes "[SESSION]")
session-Free = (refl, (refl, (refl, (refl, (refl, (refl, (refl, (refl, (refl, tt)))))))))

last-Free : Free (λ d. d == b'\n') (codes "A=1")
last-Free = (refl, (refl, (refl, tt)))

abbrev line_of : Bytes → Bytes
line_of v = setting_line (codes " ") b'S' (codes "alt ") v

parse_quickfix_settings-secret_example :
    parse_quickfix_settings
      (unlines (codes "[SESSION]" ∷ line_of (codes "a=b") ∷ codes "A=1" ∷ []))
      origin
    ≡ parse_quickfix_settings
        (unlines (codes "[SESSION]" ∷ line_of (codes "cd") ∷ codes "A=1" ∷ []))
        origin
parse_quickfix_settings-secret_example =
    parse_quickfix_settings-secret origin (codes "[SESSION]" ∷ []) (codes "A=1" ∷ []) (codes " ")
      b'S' (codes "alt ") (codes "a=b") (codes "cd") salt-IsName
      (
        session-Free,
        (
          (refl, (refl, (refl, (refl, (refl, (refl, (refl, (refl, (refl, (refl, tt)))))))))),
          (last-Free, tt),
        ),
      )
      (
        session-Free,
        (
          (refl, (refl, (refl, (refl, (refl, (refl, (refl, (refl, (refl, tt))))))))),
          (last-Free, tt),
        ),
      )

abbrev nothing_there : FileSystem
nothing_there = record {
  is_directory = λ p. false;
  is_file = λ p. false;
  exists = λ p. false;
  entries = λ p. [];
  read_file = λ p. none;
}

abbrev one_session : Settings
one_session = record {
  path = origin;
  defaults = [];
  sessions =
      (record {
        values =
            (codes "filelogpath", record { name = codes "FileLogPath"; value = codes "log" })
            ∷ (codes "sendercompid", record { name = codes "SenderCompID"; value = codes "A" })
            ∷ (codes "targetcompid", record { name = codes "TargetCompID"; value = codes "B" })
            ∷ [];
        redacted_keys = [];
      })
      ∷ [];
  warnings = [];
}

sessions_from_quickfix-IsUsable_example :
    All (IsUsable origin) (sessions_from_quickfix nothing_there one_session []).sessions
sessions_from_quickfix-IsUsable_example =
    sessions_from_quickfix-IsUsable nothing_there one_session []

-- the one session there is, and what is watched for it
one_session_watched :
    map
      (λ (s : SessionConfig). s.message_log_path)
      (sessions_from_quickfix nothing_there one_session []).sessions
    ≡ codes "log/FIX.4.4-A-B.messages.current.log" ∷ []
unfolding sessions_from_quickfix add_blocks add_session session_from_block attach_logs attach_found
    find_log resolve_quickfix_log scan_for_log quickfix_log_prefixes get get_int stoi find_setting
    Dict.lookup lower eq_text to_lower resolve_log_dir parent_path watch join_path push_session
    named_in add_prefix add_prefixes starts_with drop_while_end
one_session_watched = refl
