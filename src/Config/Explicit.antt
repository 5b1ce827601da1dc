-- ===== src/Config/Explicit.antt =====
-- What the operator's own file says, after the engine's settings have been merged in.
use fix_mon.Prelude.{
  Bool, true, false, some, List, [], ◌∷◌, Bytes, is_empty, if◌then◌else◌, eq_text, ℤ, ◌≡◌, refl,
  sym, subst, ◌∙◌, inl, inr, ◌⊎◌, Bool-cases, Option-cases, some_eq, none_some,
}
use fix_mon.Config.Session.{SessionConfig, TriState, session_id}
use fix_mon.Config.Merge.{fill_from_quickfix, or_text, or_tristate}
use fix_mon.Config.Load.{AppConfig}
use fix_mon.Config.Import.{
  resolve_against, merge_session, import_session, import_sessions, import_settings, import_paths,
  import_quickfix_configs,
}
use fix_mon.QuickFix.Reader.{Settings}
use fix_mon.QuickFix.Logs.{FileSystem}
use fix_mon.QuickFix.Sessions.{load_quickfix_settings, sessions_from_quickfix}

-- a text that was given stays
abbrev pub Kept : Bytes → Bytes → Type 0
Kept a b = (is_empty a ≡ true) ⊎ (b ≡ a)

-- a yes or no that was given stays
abbrev pub Answered : TriState → TriState → Type 0
Answered a b = (a ≡ TriState.unknown) ⊎ (b ≡ a)

-- `t` says whatever `s` says
pub record IsKept (s t : SessionConfig) : Type 0 where
  pub begin_string : t.begin_string ≡ s.begin_string
  pub sender_comp_id : t.sender_comp_id ≡ s.sender_comp_id
  pub target_comp_id : t.target_comp_id ≡ s.target_comp_id
  pub message_log : Kept s.message_log_path t.message_log_path
  pub event_log : Kept s.event_log_path t.event_log_path
  pub qualifier : Kept s.session_qualifier t.session_qualifier
  pub sender_sub : Kept s.sender_sub_id t.sender_sub_id
  pub target_sub : Kept s.target_sub_id t.target_sub_id
  pub explicit : t.heartbeat_explicit ≡ s.heartbeat_explicit
  pub heartbeat : (s.heartbeat_explicit ≡ false) ⊎ (t.heartbeat_interval ≡ s.heartbeat_interval)
  pub on_logon : Answered s.reset_on_logon t.reset_on_logon
  pub on_logout : Answered s.reset_on_logout t.reset_on_logout
  pub on_disconnect : Answered s.reset_on_disconnect t.reset_on_disconnect
  pub messages : Answered s.persist_messages t.persist_messages

or_text-Kept : (a b : Bytes) → Kept a (or_text a b)
or_text-Kept [] b = inl refl
or_text-Kept (c ∷ a) b = inr refl

or_tristate-Answered : (a b : TriState) → Answered a (or_tristate a b)
or_tristate-Answered TriState.unknown b = inl refl
or_tristate-Answered TriState.yes_ b = inr refl
or_tristate-Answered TriState.no_ b = inr refl

heartbeat_kept : (e : Bool) (a b : ℤ) → ((e ≡ false) ⊎ ((if e then a else b) ≡ a))
heartbeat_kept true a b = inr refl
heartbeat_kept false a b = inl refl

fill-IsKept : (s d : SessionConfig) → IsKept s (fill_from_quickfix s d)
unfolding fill_from_quickfix
fill-IsKept s d = record {
  begin_string = refl;
  sender_comp_id = refl;
  target_comp_id = refl;
  message_log = or_text-Kept s.message_log_path d.message_log_path;
  event_log = or_text-Kept s.event_log_path d.event_log_path;
  qualifier = or_text-Kept s.session_qualifier d.session_qualifier;
  sender_sub = or_text-Kept s.sender_sub_id d.sender_sub_id;
  target_sub = or_text-Kept s.target_sub_id d.target_sub_id;
  explicit = refl;
  heartbeat = heartbeat_kept s.heartbeat_explicit s.heartbeat_interval d.heartbeat_interval;
  on_logon = or_tristate-Answered s.reset_on_logon d.reset_on_logon;
  on_logout = or_tristate-Answered s.reset_on_logout d.reset_on_logout;
  on_disconnect = or_tristate-Answered s.reset_on_disconnect d.reset_on_disconnect;
  messages = or_tristate-Answered s.persist_messages d.persist_messages;
}

IsKept-refl : (s : SessionConfig) → IsKept s s
IsKept-refl s = record {
  begin_string = refl;
  sender_comp_id = refl;
  target_comp_id = refl;
  message_log = inr refl;
  event_log = inr refl;
  qualifier = inr refl;
  sender_sub = inr refl;
  target_sub = inr refl;
  explicit = refl;
  heartbeat = inr refl;
  on_logon = inr refl;
  on_logout = inr refl;
  on_disconnect = inr refl;
  messages = inr refl;
}

module _ {ℓ} {A : Type ℓ} (Said : A → Type 0) where
  kept_trans : (a b c : A) → (Said a ⊎ (b ≡ a)) → (Said b ⊎ (c ≡ b)) → (Said a ⊎ (c ≡ a))
  kept_trans a b c (inl h) k = inl h
  kept_trans a b c (inr h) (inl k) = inl (subst Said h k)
  kept_trans a b c (inr h) (inr k) = inr (k ∙ h)

heartbeat_trans :
    (e f : Bool) (a b c : ℤ)
    → f ≡ e
    → ((e ≡ false) ⊎ (b ≡ a))
    → ((f ≡ false) ⊎ (c ≡ b))
    → ((e ≡ false) ⊎ (c ≡ a))
heartbeat_trans e f a b c g (inl h) k = inl h
heartbeat_trans e f a b c g (inr h) (inl k) = inl (sym g ∙ k)
heartbeat_trans e f a b c g (inr h) (inr k) = inr (k ∙ h)

IsKept-trans : (s t u : SessionConfig) → IsKept s t → IsKept t u → IsKept s u
IsKept-trans s t u h k =
    let text = kept_trans (λ a. is_empty a ≡ true) in
    let answer = kept_trans (λ a. a ≡ TriState.unknown) in
    record {
      begin_string = k.begin_string ∙ h.begin_string;
      sender_comp_id = k.sender_comp_id ∙ h.sender_comp_id;
      target_comp_id = k.target_comp_id ∙ h.target_comp_id;
      message_log = text _ _ _ h.message_log k.message_log;
      event_log = text _ _ _ h.event_log k.event_log;
      qualifier = text _ _ _ h.qualifier k.qualifier;
      sender_sub = text _ _ _ h.sender_sub k.sender_sub;
      target_sub = text _ _ _ h.target_sub k.target_sub;
      explicit = k.explicit ∙ h.explicit;
      heartbeat = heartbeat_trans _ _ _ _ _ h.explicit h.heartbeat k.heartbeat;
      on_logon = answer _ _ _ h.on_logon k.on_logon;
      on_logout = answer _ _ _ h.on_logout k.on_logout;
      on_disconnect = answer _ _ _ h.on_disconnect k.on_disconnect;
      messages = answer _ _ _ h.messages k.messages;
    }

-- every session of the first list is still there, in its place, and says what it said
abbrev pub IsExtended : List SessionConfig → List SessionConfig → Type 0
IsExtended [] ts = Unit
IsExtended (s ∷ ss) [] = ⊥
IsExtended (s ∷ ss) (t ∷ ts) = IsKept s t × IsExtended ss ts

IsExtended-refl : (ss : List SessionConfig) → IsExtended ss ss
IsExtended-refl [] = tt
IsExtended-refl (s ∷ ss) = (IsKept-refl s, IsExtended-refl ss)

IsExtended-trans : (a b c : List SessionConfig) → IsExtended a b → IsExtended b c → IsExtended a c
IsExtended-trans [] b c h k = tt
IsExtended-trans (x ∷ a) (y ∷ b) (z ∷ c) h k =
    (IsKept-trans x y z h.0 k.0, IsExtended-trans a b c h.1 k.1)
IsExtended-trans (x ∷ a) [] c h k = absurd h
IsExtended-trans (x ∷ a) (y ∷ b) [] h k = absurd k

merge_session-IsExtended :
    (d : SessionConfig) (ss : List SessionConfig) → IsExtended ss (merge_session d ss)
unfolding merge_session
merge_session-IsExtended d [] = tt
merge_session-IsExtended d (s ∷ ss) = elim (Bool-cases (eq_text (session_id s) (session_id d))) [
  | inl e ↦ rw (e, IsExtended) (fill-IsKept s d, IsExtended-refl ss)
  | inr e ↦ rw (e, IsExtended) (IsKept-refl s, merge_session-IsExtended d ss)
]

import_sessions-IsExtended :
    (path : Bytes) (ds : List SessionConfig) (c : AppConfig)
    → IsExtended c.sessions (import_sessions path ds c).sessions
unfolding import_sessions import_session
import_sessions-IsExtended path [] c = IsExtended-refl c.sessions
import_sessions-IsExtended path (d ∷ ds) c =
    IsExtended-trans c.sessions (merge_session d c.sessions) _
      (merge_session-IsExtended d c.sessions)
      (import_sessions-IsExtended path ds (import_session path d c))

import_settings-IsExtended :
    (fs : FileSystem) (path : Bytes) (settings : Settings) (c : AppConfig)
    → IsExtended c.sessions (import_settings fs path settings c).sessions
unfolding import_settings
import_settings-IsExtended fs path settings c =
    import_sessions-IsExtended path (sessions_from_quickfix fs settings c.notes).sessions _

import_paths-IsExtended :
    (fs : FileSystem) (base_dir : Bytes) (raws : List Bytes) (c c' : AppConfig)
    → import_paths fs base_dir raws c ≡ some c'
    → IsExtended c.sessions c'.sessions
unfolding import_paths
import_paths-IsExtended fs base_dir [] c c' e =
    subst (λ (x : AppConfig). IsExtended c.sessions x.sessions) (some_eq e)
      (IsExtended-refl c.sessions)
import_paths-IsExtended fs base_dir (raw ∷ raws) c c' e =
    let path = resolve_against fs raw base_dir in
    elim (Option-cases (load_quickfix_settings fs path)) [
      | inl h ↦ absurd (none_some (rw (import_paths, h) at e))
      | inr (settings, h) ↦
          IsExtended-trans c.sessions (import_settings fs path settings c).sessions c'.sessions
            (import_settings-IsExtended fs path settings c)
            (import_paths-IsExtended fs base_dir raws (import_settings fs path settings c) c'
              (rw (import_paths, h) at e))
    ]

-- Whatever engine files are imported, and whatever is on disk: every session of the operator's own
-- file is still there, in its place, and what that file says of it is as it was. Its comp ids do
-- not change, a path, a qualifier or a sub id that was given is not replaced, nor is a heartbeat
-- that was set or a yes or no that was answered.
pub import_quickfix_configs-IsExtended :
    (fs : FileSystem) (base_dir : Bytes) (c c' : AppConfig)
    → import_quickfix_configs fs base_dir c ≡ some c'
    → IsExtended c.sessions c'.sessions
unfolding import_quickfix_configs
import_quickfix_configs-IsExtended fs base_dir c c' e =
    import_paths-IsExtended fs base_dir c.quickfix_configs c c' e
