-- ===== src/Pipeline/Printed.antt =====
-- What fix_monitor/src/main.cpp prints about a session and about the data it keeps.
use fix_mon.Prelude.{
  ℕ, pos, ltb_ℤ, Bool, true, false, ◌&&◌, List, [], ◌∷◌, ◌++◌, Bytes, codes, is_empty, ◌==◌,
  if◌then◌else◌, eq_text,
}
use fix_mon.Config.Load.{AppConfig}
use fix_mon.Config.Session.{SessionConfig, session_id, seq_reset_policy, resend_capability}
use fix_mon.Pipeline.Json.{number_text}

-- a line, where there is something to say
abbrev line_unless : Bool → Bytes → Bytes
line_unless true text = []
line_unless false text = text ++ b'\n' ∷ []

-- the names of the credentials that were dropped, each with `kRedacted`
unfoldable pub print_redacted : List Bytes → Bytes
print_redacted [] = []
print_redacted (key ∷ keys) = b' ' ∷ (key ++ (codes "=<redacted>" ++ print_redacted keys))

abbrev heading : SessionConfig → Bytes
heading sc =
    codes "session: "
    ++ session_id sc
    ++ codes "  hb="
    ++ number_text sc.heartbeat_interval
    ++ codes "s"
    ++ (if is_empty sc.connection_type then [] else codes "  " ++ sc.connection_type)
    ++ (if sc.from_quickfix then codes "  <- " ++ sc.origin else [])
    ++ codes "\n"

unfoldable pub print_session : SessionConfig → ℕ → Bytes
print_session sc adapters =
    heading sc
    ++ line_unless (is_empty sc.message_log_path) (codes "    messages: " ++ sc.message_log_path)
    ++ line_unless (is_empty sc.event_log_path) (codes "    events  : " ++ sc.event_log_path)
    ++ line_unless (is_empty sc.start_time && is_empty sc.end_time)
        (codes "    schedule: " ++ sc.start_time ++ codes " - " ++ sc.end_time)
    ++ codes "    sequence: "
    ++ seq_reset_policy sc
    ++ codes ", resend "
    ++ resend_capability sc
    ++ codes "\n"
    ++ (if eq_text (seq_reset_policy sc) (codes "unknown")
        then codes
            "      (ResetOnLogon/ResetOnLogout/ResetOnDisconnect not known - a sequence gap cannot be judged without them)\n"
        else [])
    ++ (if adapters == 0
        then codes "    WARNING: no log files resolved, this session will stay silent\n"
        else [])
    ++ line_unless (is_empty sc.redacted_settings)
        (codes "    credentials ignored:" ++ print_redacted sc.redacted_settings)

unfoldable pub print_data_policy : AppConfig → Bytes
print_data_policy cfg =
    codes "masking: message bodies "
    ++ (if cfg.mask_message_bodies then codes "masked" else codes "STORED IN FULL")
    ++ codes ", credential tags always masked\nretention: "
    ++ (if ltb_ℤ (pos 0) cfg.retention_days
        then number_text cfg.retention_days ++ codes " days"
        else codes "disabled - the store will grow without bound")
    ++ codes "\n"

unfoldable pub print_notes : List Bytes → Bytes
print_notes [] = []
print_notes (note ∷ notes) = codes "config: " ++ note ++ codes "\n" ++ print_notes notes
