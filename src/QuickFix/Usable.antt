-- ===== src/QuickFix/Usable.antt =====
-- What holds of every session that is derived from the engine's settings.
use fix_mon.Prelude.{
  zero, suc, ℤ, pos, negsuc, ◌<ℤ◌, Bool, true, false, not, ◌||◌, Option, none, some, List, [], ◌∷◌,
  Bytes, codes, take, is_empty, if◌then◌else◌, eq_text, find_text, All, All-snoc, ◌≡◌, refl, subst,
  inl, inr, ◌⊎◌, Bool-cases, Option-cases, arith,
}
use fix_mon.Config.Session.{SessionConfig}
use fix_mon.QuickFix.Dictionary.{Block}
use fix_mon.QuickFix.Reader.{Settings}
use fix_mon.QuickFix.Logs.{
  FileSystem, EntryKind, quickfix_log_prefixes, watch, attach_found, attach_logs, resolve_log_dir,
}
use fix_mon.QuickFix.Sessions.{
  Derived, parent_path, star, paired_in, comp_ids, strip_begin, add_pair, discover_entry,
  discover_entries, discover_wildcard_comp_ids, positive_or_30, session_from_block, note,
  push_session, expand, add_wildcard, add_session, add_blocks, sessions_from_quickfix,
}
use fix_mon.QuickFix.Watched.{attach_logs_lem}

-- named on both sides, a heartbeat, and where it comes from
abbrev pub IsNamed : Bytes → SessionConfig → Type 0
IsNamed path s =
    (is_empty s.sender_comp_id ≡ false)
    × (is_empty s.target_comp_id ≡ false)
    × (pos 0 <ℤ s.heartbeat_interval)
    × (s.from_quickfix ≡ true)
    × (s.origin ≡ path)

-- two logs to read, unless the engine keeps none
abbrev pub IsTailed : SessionConfig → Type 0
IsTailed s =
    (is_empty s.file_log_path ≡ true)
    ⊎ ((is_empty s.message_log_path ≡ false) × (is_empty s.event_log_path ≡ false))

abbrev pub IsUsable : Bytes → SessionConfig → Type 0
IsUsable path s = IsNamed path s × IsTailed s

if-any :
    (P : SessionConfig → Type 0) (b : Bool) (x y : SessionConfig × List Bytes)
    → P x.0
    → P y.0
    → P (if b then x else y).0
if-any P true x y h k = h
if-any P false x y h k = k

-- attaching logs changes the two paths and nothing else
module _ (P : SessionConfig → Type 0) (dir : Bytes) (sc : SessionConfig)
    (h : (m v : Bytes) → P (record sc { message_log_path = m; event_log_path = v })) where
  watch-any :
      (m v : Bytes) (prefixes notes : List Bytes)
      → P (watch dir (record sc { message_log_path = m; event_log_path = v }) prefixes notes).0
  unfolding watch
  watch-any m v [] notes = h m v
  watch-any m v (p ∷ ps) notes = h _ _

  attach_logs-any : (fs : FileSystem) (notes : List Bytes) → P (attach_logs fs dir sc notes).0
  unfolding attach_logs attach_found
  attach_logs-any fs notes = if-any P _ _ _ (watch-any _ _ (quickfix_log_prefixes sc) notes) (h _ _)

attach_logs-IsUsable :
    (path dir : Bytes) (sc : SessionConfig) (fs : FileSystem) (notes : List Bytes)
    → IsNamed path sc
    → IsUsable path (attach_logs fs dir sc notes).0
attach_logs-IsUsable path dir sc fs notes h = (
  attach_logs-any (IsNamed path) dir sc (λ m v. h) fs notes,
  inr (attach_logs_lem fs dir sc notes),
)

BothNamed : Bytes × Bytes → Type 0
BothNamed p = (is_empty p.0 ≡ false) × (is_empty p.1 ≡ false)

add_pair-All :
    (o : Option (Bytes × Bytes)) (out : List (Bytes × Bytes))
    → All BothNamed out
    → All BothNamed (add_pair o out)
unfolding BothNamed
add_pair-All none out a = a
add_pair-All (some (s, t)) out a = elim (Bool-cases (is_empty s)) [
  | inl e ↦ rw e a
  | inr e ↦ elim (Bool-cases (is_empty t || paired_in out s t)) [
    | inl f ↦ rw (e, f) a
    | inr f ↦ rw (e, f) (All-snoc BothNamed out (s, t) a (e, ground (arith, f)))
  ]
]

discover_entry-All :
    (sc : SessionConfig) (name : Bytes) (out : List (Bytes × Bytes))
    → All BothNamed out
    → All BothNamed (discover_entry sc name out)
unfolding discover_entry
discover_entry-All sc name out a = elim (Option-cases (find_text (codes ".messages.") name)) [
  | inl e ↦ rw (discover_entry, e) a
  | inr (m, e) ↦
      rw (discover_entry, e)
        (add_pair-All (comp_ids sc (strip_begin sc.begin_string (take m name))) out a)
]

discover_entries-All :
    (sc : SessionConfig) (es : List (Bytes × EntryKind)) (out : List (Bytes × Bytes))
    → All BothNamed out
    → All BothNamed (discover_entries sc es out)
unfolding discover_entries
discover_entries-All sc [] out a = a
discover_entries-All sc ((name, EntryKind.regular) ∷ es) out a =
    discover_entries-All sc es (discover_entry sc name out) (discover_entry-All sc name out a)
discover_entries-All sc ((name, EntryKind.other) ∷ es) out a = discover_entries-All sc es out a
discover_entries-All sc ((name, EntryKind.failed) ∷ es) out a = a

if-All {ℓ κ} :
    {A : Type ℓ} (P : A → Type κ) (b : Bool) (x y : List A)
    → All P x
    → All P y
    → All P (if b then x else y)
if-All P true x y h k = h
if-All P false x y h k = k

discover-All :
    (fs : FileSystem) (dir : Bytes) (sc : SessionConfig)
    → All BothNamed (discover_wildcard_comp_ids fs dir sc)
unfolding discover_wildcard_comp_ids
discover-All fs dir sc =
    if-All BothNamed (not (fs.is_directory dir)) [] _ tt
      (if-All BothNamed _ [] _ tt (discover_entries-All sc (fs.entries dir) [] tt))

abbrev AllUsable : Bytes → Derived → Type 0
AllUsable path d = All (IsUsable path) d.sessions

push-AllUsable :
    (path : Bytes) (sc : SessionConfig) (notes : List Bytes) (d : Derived)
    → IsUsable path sc
    → AllUsable path d
    → AllUsable path (push_session (sc, notes) d)
unfolding push_session
push-AllUsable path sc notes d h a = All-snoc (IsUsable path) d.sessions sc a h

expand-AllUsable :
    (fs : FileSystem) (path dir : Bytes) (sc : SessionConfig) (ps : List (Bytes × Bytes))
    (d : Derived)
    → IsNamed path sc
    → All BothNamed ps
    → AllUsable path d
    → AllUsable path (expand fs path dir sc ps d)
unfolding expand BothNamed
expand-AllUsable fs path dir sc [] d h b a = a
expand-AllUsable fs path dir sc ((s, t) ∷ ps) d h b a =
    let one = record sc { sender_comp_id = s; target_comp_id = t } in
    expand-AllUsable fs path dir sc ps _ h b.1 (
      push-AllUsable path (attach_logs fs dir one d.notes).0 _ d
        (attach_logs-IsUsable path dir one fs d.notes (b.0.0, b.0.1, h.2, h.3, h.4)) a)

add_wildcard-AllUsable :
    (fs : FileSystem) (path dir : Bytes) (sc : SessionConfig) (ps : List (Bytes × Bytes))
    (d : Derived)
    → discover_wildcard_comp_ids fs dir sc ≡ ps
    → IsNamed path sc
    → AllUsable path d
    → AllUsable path (add_wildcard fs path dir sc d)
unfolding add_wildcard note
add_wildcard-AllUsable fs path dir sc [] d e h a = rw (add_wildcard, e) a
add_wildcard-AllUsable fs path dir sc (p ∷ ps) d e h a =
    rw (add_wildcard, e)
      (expand-AllUsable fs path dir sc (p ∷ ps) d h
        (subst (All BothNamed) e (discover-All fs dir sc)) a)

add_session-AllUsable :
    (fs : FileSystem) (path : Bytes) (sc : SessionConfig) (d : Derived)
    → pos 0 <ℤ sc.heartbeat_interval
    → sc.from_quickfix ≡ true
    → sc.origin ≡ path
    → AllUsable path d
    → AllUsable path (add_session fs path sc d)
unfolding add_session note
add_session-AllUsable fs path sc d hb fq og a = elim (Bool-cases (is_empty sc.sender_comp_id)) [
  | inl e ↦ rw (add_session, e) a
  | inr e ↦ elim (Bool-cases (is_empty sc.target_comp_id)) [
    | inl f ↦ rw (add_session, e, f) a
    | inr f ↦ elim (Bool-cases (is_empty sc.file_log_path)) [
      | inl g ↦ rw (add_session, e, f, g) (push-AllUsable path sc _ d ((e, f, hb, fq, og), inl g) a)
      | inr g ↦
          let dir = resolve_log_dir fs sc.file_log_path (parent_path path) in
          let there = record sc { file_log_path = dir } in
          elim (Bool-cases (eq_text sc.sender_comp_id star || eq_text sc.target_comp_id star)) [
            | inl w ↦
                rw (add_session, e, f, g, w)
                  (add_wildcard-AllUsable fs path dir there
                    (discover_wildcard_comp_ids fs dir there) d refl (e, f, hb, fq, og) a)
            | inr w ↦
                rw (add_session, e, f, g, w)
                  (push-AllUsable path (attach_logs fs dir there d.notes).0 _ d
                    (attach_logs-IsUsable path dir there fs d.notes (e, f, hb, fq, og)) a)
          ]
    ]
  ]
]

positive_lem : (z : ℤ) → pos 0 <ℤ positive_or_30 z
positive_lem (pos zero) = omega arith
positive_lem (pos (suc n)) = omega arith
positive_lem (negsuc n) = omega arith

add_blocks-AllUsable :
    (fs : FileSystem) (path : Bytes) (bs : List Block) (d : Derived)
    → AllUsable path d
    → AllUsable path (add_blocks fs path bs d)
unfolding add_blocks session_from_block
add_blocks-AllUsable fs path [] d a = a
add_blocks-AllUsable fs path (b ∷ bs) d a =
    add_blocks-AllUsable fs path bs (add_session fs path (session_from_block path b) d)
      (add_session-AllUsable fs path (session_from_block path b) d (positive_lem _) refl refl a)

-- Every session that is derived from the engine's settings has a sender and a target, a heartbeat
-- above 0, the file that it comes from, and two logs to read unless the engine writes none:
-- whatever the settings say, whatever is on disk, wildcards included.
pub sessions_from_quickfix-IsUsable :
    (fs : FileSystem) (settings : Settings) (notes : List Bytes)
    → All (IsUsable settings.path) (sessions_from_quickfix fs settings notes).sessions
unfolding sessions_from_quickfix
sessions_from_quickfix-IsUsable fs settings notes =
    add_blocks-AllUsable fs settings.path settings.sessions _ tt
