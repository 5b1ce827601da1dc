-- ===== src/QuickFix/Watched.antt =====
-- Which logs a session of the engine's settings is read from.
use fix_mon.Prelude.{
  ℕ, ◌+◌, false, not, ◌||◌, List, [], ◌∷◌, ◌++◌, Bytes, codes, length, take, drop, is_empty, ltb,
  leb, find_text, ◌≡◌, ◌≢◌, refl, sym, subst, inl, inr, ◌⊎◌, Bool-cases, Option-cases,
}
use fix_mon.Config.Session.{SessionConfig}
use fix_mon.Config.Merge.{named_in}
use fix_mon.QuickFix.Logs.{
  FileSystem, EntryKind, join_path, ends_with, marker_of, swap_log_kind, add_prefix, add_prefixes,
  identity_score, score_entry, scan_entries, scan_for_log, quickfix_log_prefixes, log_name,
  resolve_quickfix_log, or_else_text, find_log, watch, attach_found, attach_logs,
}
use fix_mon.QuickFix.Occurs.{Holds, Holds-find_text, Holds-join_path, Holds-log_name, Holds-some}

-- nothing, or a path that names the kind of log
abbrev IsLog : Bytes → Bytes → Type 0
IsLog kind path = (path ≡ []) ⊎ Holds (marker_of kind) path

resolve-IsLog :
    (fs : FileSystem) (dir : Bytes) (ps : List Bytes) (kind : Bytes)
    → IsLog kind (resolve_quickfix_log fs dir ps kind)
unfolding resolve_quickfix_log
resolve-IsLog fs dir [] kind = inl refl
resolve-IsLog fs dir (p ∷ ps) kind =
    elim (Bool-cases (fs.is_file (join_path dir (log_name p kind (codes ".current.log"))))) [
      | inl e ↦ rw e (
          inr (
            Holds-join_path (marker_of kind) dir (log_name p kind (codes ".current.log"))
              (Holds-log_name p kind (codes "current.log"))))
      | inr e ↦ elim (Bool-cases (fs.is_file (join_path dir (log_name p kind (codes ".log"))))) [
        | inl f ↦
            rw (e, f)
              (inr (
                Holds-join_path (marker_of kind) dir (log_name p kind (codes ".log"))
                  (Holds-log_name p kind (codes "log"))))
        | inr f ↦ rw (e, f) (resolve-IsLog fs dir ps kind)
      ]
    ]

score_entry-IsLog :
    (dir : Bytes) (sc : SessionConfig) (kind name : Bytes) (b : Bytes × ℕ)
    → IsLog kind b.0
    → IsLog kind (score_entry dir sc (marker_of kind) name b).0
unfolding score_entry
score_entry-IsLog dir sc kind name (best, score) h =
    elim (Bool-cases (not (ends_with (codes ".log") name))) [
      | inl e ↦ rw (score_entry, e) h
      | inr e ↦ elim (Option-cases (find_text (marker_of kind) name)) [
        | inl f ↦ rw (score_entry, e, f) h
        | inr (m, f) ↦ elim (Bool-cases (ltb score (identity_score (take m name) sc))) [
          | inl g ↦
              rw (score_entry, e, f, g)
                (inr (
                  Holds-join_path (marker_of kind) dir name
                    (Holds-find_text (marker_of kind) name f)))
          | inr g ↦ rw (score_entry, e, f, g) h
        ]
      ]
    ]

scan_entries-IsLog :
    (dir : Bytes) (sc : SessionConfig) (kind : Bytes) (es : List (Bytes × EntryKind))
    (b : Bytes × ℕ)
    → IsLog kind b.0
    → IsLog kind (scan_entries dir sc (marker_of kind) es b).0
unfolding scan_entries
scan_entries-IsLog dir sc kind [] b h = h
scan_entries-IsLog dir sc kind ((name, EntryKind.regular) ∷ es) b h =
    scan_entries-IsLog dir sc kind es (score_entry dir sc (marker_of kind) name b)
      (score_entry-IsLog dir sc kind name b h)
scan_entries-IsLog dir sc kind ((name, EntryKind.other) ∷ es) b h =
    scan_entries-IsLog dir sc kind es b h
scan_entries-IsLog dir sc kind ((name, EntryKind.failed) ∷ es) b h = h

scan_for_log-IsLog :
    (fs : FileSystem) (dir : Bytes) (sc : SessionConfig) (kind : Bytes)
    → IsLog kind (scan_for_log fs dir sc kind)
unfolding scan_for_log
scan_for_log-IsLog fs dir sc kind = elim (Bool-cases (not (fs.is_directory dir))) [
  | inl e ↦ rw (scan_for_log, e) (inl refl)
  | inr e ↦
      let b = scan_entries dir sc (marker_of kind) (fs.entries dir) ([], 0) in
      elim (Bool-cases (leb 2 b.1)) [
        | inl f ↦
            rw (scan_for_log, e, f)
              (scan_entries-IsLog dir sc kind (fs.entries dir) ([], 0) (inl refl))
        | inr f ↦ rw (scan_for_log, e, f) (inl refl)
      ]
]

or_else_text-IsLog :
    (kind a b : Bytes) → IsLog kind a → IsLog kind b → IsLog kind (or_else_text a b)
or_else_text-IsLog kind [] b h k = k
or_else_text-IsLog kind (c ∷ a) b h k = h

find_log-IsLog :
    (fs : FileSystem) (dir : Bytes) (sc : SessionConfig) (kind : Bytes)
    → IsLog kind (find_log fs dir sc kind)
unfolding find_log
find_log-IsLog fs dir sc kind =
    or_else_text-IsLog kind (resolve_quickfix_log fs dir (quickfix_log_prefixes sc) kind)
      (scan_for_log fs dir sc kind) (resolve-IsLog fs dir (quickfix_log_prefixes sc) kind)
      (scan_for_log-IsLog fs dir sc kind)

not_empty : (xs : Bytes) (c : ℕ) (ys : Bytes) → is_empty (xs ++ c ∷ ys) ≡ false
not_empty [] c ys = refl
not_empty (x ∷ xs) c ys = refl

swap_log_kind_lem :
    (path from to : Bytes)
    → IsLog from path
    → is_empty path ≡ false
    → is_empty (swap_log_kind path from to) ≡ false
unfolding swap_log_kind
swap_log_kind_lem path from to (inl h) e =
    absurd (subst (λ p. is_empty p ≢ false) (sym h) (λ f. cc) e)
swap_log_kind_lem path from to (inr (p, h)) e =
    rw (swap_log_kind, h)
      (not_empty (take p path) b'.' ((to ++ codes ".") ++ drop (p + length (marker_of from)) path))

not_empty_names : (out : List Bytes) (p : Bytes) → is_empty (out ++ p ∷ []) ≡ false
not_empty_names [] p = refl
not_empty_names (q ∷ out) p = refl

add_prefix_keeps :
    (out : List Bytes) (p : Bytes) → is_empty out ≡ false → is_empty (add_prefix out p) ≡ false
unfolding add_prefix
add_prefix_keeps out p h = elim (Bool-cases (is_empty p || named_in out p)) [
  | inl e ↦ rw (add_prefix, e) h
  | inr e ↦ rw (add_prefix, e) (not_empty_names out p)
]

add_prefixes_keep :
    (out ps : List Bytes) → is_empty out ≡ false → is_empty (add_prefixes out ps) ≡ false
unfolding add_prefixes
add_prefixes_keep out [] h = h
add_prefixes_keep out (p ∷ ps) h =
    add_prefixes_keep (add_prefix out p) ps (add_prefix_keeps out p h)

add_prefix_some :
    (out : List Bytes) (p : Bytes) → is_empty p ≡ false → is_empty (add_prefix out p) ≡ false
unfolding add_prefix named_in
add_prefix_some [] p e = rw (add_prefix, e) refl
add_prefix_some (q ∷ out) p e = add_prefix_keeps (q ∷ out) p refl

add_prefixes_some :
    (out qs : List Bytes) (p : Bytes) (ps : List Bytes)
    → is_empty p ≡ false
    → is_empty (add_prefixes out (qs ++ p ∷ ps)) ≡ false
unfolding add_prefixes
add_prefixes_some out [] p ps e = add_prefixes_keep (add_prefix out p) ps (add_prefix_some out p e)
add_prefixes_some out (q ∷ qs) p ps e = add_prefixes_some (add_prefix out q) qs p ps e

quickfix_log_prefixes_some : (sc : SessionConfig) → is_empty (quickfix_log_prefixes sc) ≡ false
unfolding quickfix_log_prefixes
quickfix_log_prefixes_some sc = add_prefixes_some [] _ _ _ (not_empty sc.begin_string b'-' _)

watch_lem :
    (dir : Bytes) (sc : SessionConfig) (prefixes notes : List Bytes)
    → is_empty prefixes ≡ false
    → (is_empty (watch dir sc prefixes notes).0.message_log_path ≡ false)
      × (is_empty (watch dir sc prefixes notes).0.event_log_path ≡ false)
unfolding watch
watch_lem dir sc [] notes e = cc
watch_lem dir sc (p ∷ ps) notes e = (
  Holds-some (codes "messages") _ (
      Holds-join_path (marker_of (codes "messages")) dir (p ++ codes ".messages.current.log")
        (Holds-log_name p (codes "messages") (codes "current.log"))),
  Holds-some (codes "event") _ (
      Holds-join_path (marker_of (codes "event")) dir (p ++ codes ".event.current.log")
        (Holds-log_name p (codes "event") (codes "current.log"))),
)

attach_found_lem :
    (dir : Bytes) (sc : SessionConfig) (message event : Bytes) (notes : List Bytes)
    → IsLog (codes "messages") message
    → IsLog (codes "event") event
    → (is_empty (attach_found dir sc message event notes).0.message_log_path ≡ false)
      × (is_empty (attach_found dir sc message event notes).0.event_log_path ≡ false)
unfolding attach_found
attach_found_lem dir sc [] [] notes h k =
    watch_lem dir _ (quickfix_log_prefixes sc) notes (quickfix_log_prefixes_some sc)
attach_found_lem dir sc (c ∷ m) (d ∷ v) notes h k = (refl, refl)
attach_found_lem dir sc [] (d ∷ v) notes h k =
    let other = swap_log_kind_lem (d ∷ v) (codes "event") (codes "messages") k refl in
    rw other (other, refl)
attach_found_lem dir sc (c ∷ m) [] notes h k =
    let other = swap_log_kind_lem (c ∷ m) (codes "messages") (codes "event") h refl in (refl, other)

-- Every session that has a log directory is read from two logs, whatever is or is not on disk:
-- the files that are there, for a missing one the name of its twin, and the canonical names if
-- there is neither. So no session of the engine is left out for want of a file.
pub attach_logs_lem :
    (fs : FileSystem) (dir : Bytes) (sc : SessionConfig) (notes : List Bytes)
    → (is_empty (attach_logs fs dir sc notes).0.message_log_path ≡ false)
      × (is_empty (attach_logs fs dir sc notes).0.event_log_path ≡ false)
unfolding attach_logs
attach_logs_lem fs dir sc notes =
    attach_found_lem dir sc (find_log fs dir sc (codes "messages"))
      (find_log fs dir sc (codes "event")) notes (find_log-IsLog fs dir sc (codes "messages"))
      (find_log-IsLog fs dir sc (codes "event"))
