-- ===== src/Pipeline/Json.antt =====
-- The document of the sessions that fix_monitor/src/main.cpp serves.
use fix_mon.Prelude.{
  ℕ, ◌+◌, ℤ, pos, negsuc, Option, none, some, List, [], ◌∷◌, ◌++◌, map, Bytes, codes, is_empty, ltb,
  ◌==◌, if◌then◌else◌, to_string,
}
use fix_mon.Config.Session.{SessionConfig, tristate_name, seq_reset_policy, resend_capability}
use fix_mon.Config.Import.{find_session}
use fix_mon.SessionState.Snapshot.{LinkState, SessionSnapshot, link_name}

unfoldable pub state_code : LinkState → ℕ
state_code LinkState.disconnected = 1
state_code LinkState.connecting = 2
state_code LinkState.logon_pending = 3
state_code LinkState.logged_on = 4
state_code LinkState.stale = 5
state_code LinkState.unknown = 0

-- what is written for one byte
unfoldable pub json_byte : ℕ → Bytes
json_byte c =
    if c == 34
    then 92 ∷ 34 ∷ []
    else if c == 92
    then 92 ∷ 92 ∷ []
    else if c == b'\n'
    then 92 ∷ b'n' ∷ []
    else if c == 13
    then 92 ∷ b'r' ∷ []
    else if c == b'\t'
    then 92 ∷ b't' ∷ []
    else if ltb c 32
    then b' ' ∷ []
    else c ∷ []

unfoldable pub json_escape : Bytes → Bytes
json_escape [] = []
json_escape (c ∷ cs) = json_byte c ++ json_escape cs

-- an integer on a stream
unfoldable pub number_text : ℤ → Bytes
number_text (pos n) = to_string n
number_text (negsuc n) = b'-' ∷ to_string (n + 1)

-- `"name":`
abbrev key : Bytes → Bytes
key name = 34 ∷ (name ++ (34 ∷ b':' ∷ []))

abbrev quoted : Bytes → Bytes
quoted v = 34 ∷ (v ++ (34 ∷ []))

abbrev text_member : Bytes × Bytes → Bytes
text_member (name, v) = key name ++ quoted v

abbrev count_member : Bytes × ℕ → Bytes
count_member (name, n) = key name ++ to_string n

-- the members with a comma between two
unfoldable pub joined : List Bytes → Bytes
joined [] = []
joined (m ∷ []) = m
joined (m ∷ (n ∷ ms)) = m ++ (b',' ∷ joined (n ∷ ms))

abbrev braces : List Bytes → Bytes
braces ms = b'{' ∷ (joined ms ++ (b'}' ∷ []))

unfoldable pub config_json : SessionConfig → Bytes
config_json c = braces (
    text_member (
      codes "connection_type",
      (if is_empty c.connection_type then codes "unknown" else c.connection_type),
    )
    ∷ (key (codes "heartbeat_interval") ++ number_text c.heartbeat_interval)
    ∷ text_member
        (codes "source", (if c.from_quickfix then codes "quickfix_config" else codes "fixmon_ini"))
    ∷ text_member (codes "reset_on_logon", tristate_name c.reset_on_logon)
    ∷ text_member (codes "reset_on_logout", tristate_name c.reset_on_logout)
    ∷ text_member (codes "reset_on_disconnect", tristate_name c.reset_on_disconnect)
    ∷ text_member (codes "persist_messages", tristate_name c.persist_messages)
    ∷ text_member (codes "seq_reset_policy", seq_reset_policy c)
    ∷ text_member (codes "resend_capability", resend_capability c)
    ∷ [])

abbrev config_member : Option SessionConfig → List Bytes
config_member none = []
config_member (some c) = (key (codes "config") ++ config_json c) ∷ []

unfoldable pub session_json : List SessionConfig → SessionSnapshot → Bytes
session_json configured s = braces (
    (text_member (codes "session_id", json_escape s.session_id)
      ∷ text_member (codes "state", link_name s.state)
      ∷ map count_member (
          (codes "msgs_in", s.msgs_in)
          ∷ (codes "msgs_out", s.msgs_out)
          ∷ (codes "next_expected_in", s.next_expected_in)
          ∷ (codes "last_outgoing_seq", s.last_outgoing_seq)
          ∷ (codes "seq_gaps", s.seq_gaps)
          ∷ (codes "seq_gaps_reported", s.seq_gaps_reported)
          ∷ (codes "seq_too_low", s.seq_too_low)
          ∷ (codes "resend_requests", s.resend_requests)
          ∷ (codes "heartbeat_timeouts", s.heartbeat_timeouts)
          ∷ (codes "disconnects", s.disconnects)
          ∷ (codes "reconnect_attempts", s.reconnect_attempts)
          ∷ (codes "logon_rejects", s.logon_rejects)
          ∷ (codes "session_rejects", s.session_rejects)
          ∷ (codes "business_rejects", s.business_rejects)
          ∷ (codes "exec_rejects", s.exec_rejects)
          ∷ []))
    ++ ((key (codes "last_incoming_ts_ns") ++ number_text s.last_incoming_ts_ns)
        ∷ (key (codes "clock_skew_ns") ++ number_text s.clock_skew_ns)
        ∷ text_member (codes "last_disconnect_reason", json_escape s.last_disconnect_reason)
        ∷ text_member (codes "last_reject_text", json_escape s.last_reject_text)
        ∷ config_member (find_session s.session_id configured)))

unfoldable pub sessions_json : List SessionSnapshot → List SessionConfig → Bytes
sessions_json snaps configured =
    b'{'
    ∷ (key (codes "sessions")
        ++ (b'[' ∷ (joined (map (session_json configured) snaps) ++ (b']' ∷ b'}' ∷ []))))
