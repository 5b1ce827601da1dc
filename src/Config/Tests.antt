-- ===== src/Config/Tests.antt =====
-- Runs of the configuration, and concrete uses of the theorems about it.
use fix_mon.Prelude.{
  none, some, [], ◌∷◌, Bytes, eq_text, unlines, map, pos, true, false, ◌≡◌, refl, codes,
}
use fix_mon.Config.Session.{TriState, SessionConfig, default_session, session_id}
use fix_mon.Config.Load.{AppConfig, default_config}
use fix_mon.Config.Import.{import_quickfix_configs, import_paths, resolve_against, merge_session}
use fix_mon.Config.Merge.{fill_from_quickfix}
use fix_mon.Config.Explicit.{IsExtended, import_quickfix_configs-IsExtended}
use fix_mon.QuickFix.Logs.{FileSystem}
use fix_mon.QuickFix.Sessions.{load_quickfix_settings}
use fix_mon.Config.Values.{strip_comment}

strip_comment-semicolon : strip_comment (codes "true ; replay") ≡ codes "true "
unfolding strip_comment
strip_comment-semicolon = refl

abbrev half_said : SessionConfig
half_said = record default_session { reset_on_logon = TriState.no_ }

-- the operator's session, and an engine file that has more to say of it
abbrev mine : AppConfig
mine = record default_config {
  quickfix_configs = codes "e.cfg" ∷ [];
  sessions =
      (record default_session {
        begin_string = codes "FIX.4.4";
        sender_comp_id = codes "A";
        target_comp_id = codes "B";
        reset_on_logon = TriState.no_;
      })
      ∷ [];
}

abbrev engine_text : Bytes
engine_text = unlines (
    codes "[SESSION]"
    ∷ codes "SenderCompID=A"
    ∷ codes "TargetCompID=B"
    ∷ codes "ResetOnLogon=Y"
    ∷ codes "HeartBtInt=7"
    ∷ [])

abbrev one_file : FileSystem
one_file = record {
  is_directory = λ p. false;
  is_file = λ p. false;
  exists = λ p. true;
  entries = λ p. [];
  read_file = λ p. some engine_text;
}

abbrev imported : AppConfig
imported = elim (import_quickfix_configs one_file [] mine) [ none ↦ default_config | some c ↦ c ]

import_mine : import_quickfix_configs one_file [] mine ≡ some imported
unfolding import_quickfix_configs import_paths load_quickfix_settings resolve_against
import_mine = refl

merged_heartbeat :
    map
      (λ (s : SessionConfig). s.heartbeat_interval)
      (merge_session
        (record default_session {
          begin_string = codes "FIX.4.4";
          sender_comp_id = codes "A";
          target_comp_id = codes "B";
          heartbeat_interval = pos 7;
        })
        mine.sessions)
    ≡ pos 7 ∷ []
unfolding merge_session session_id eq_text fill_from_quickfix
merged_heartbeat = refl

import_quickfix_configs-IsExtended_example : IsExtended mine.sessions imported.sessions
import_quickfix_configs-IsExtended_example =
    import_quickfix_configs-IsExtended one_file [] mine imported import_mine
