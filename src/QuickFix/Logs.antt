-- ===== src/QuickFix/Logs.antt =====
-- The log files of a session: the names they may have, and what the directory holds of them.
use fix_mon.Prelude.{
  ℕ, suc, ◌+◌, ◌-◌, Bool, true, false, not, ◌&&◌, ◌||◌, Option, none, some, List, [], ◌∷◌, ◌++◌,
  Bytes, codes, length, take, drop, is_empty, ltb, leb, ◌==◌, if◌then◌else◌, eq_text, starts_with,
  find_text, get_or, split,
}
use fix_mon.Config.Session.{SessionConfig, session_id}
use fix_mon.Config.Merge.{named_in}
use fix_mon.QuickFix.Dictionary.{iequals}

-- what `is_regular_file` says of an entry: yes, no, or an error
pub data EntryKind : Type 0 where
  regular other failed : EntryKind

-- The file system, as far as the program asks it.
pub record FileSystem : Type 0 where
  pub is_directory : Bytes → Bool
  pub is_file : Bytes → Bool  -- `file_exists`
  pub exists : Bytes → Bool
  pub entries : Bytes → List (Bytes × EntryKind)
  pub read_file : Bytes → Option Bytes

-- `fs::path(dir) / name` on a POSIX system
unfoldable pub join_path : Bytes → Bytes → Bytes
join_path dir name =
    if starts_with (codes "/") name
    then name
    else if is_empty dir || get_or dir (length dir - 1) 0 == b'/'
    then dir ++ name
    else dir ++ b'/' ∷ name

unfoldable pub ends_with : Bytes → Bytes → Bool
ends_with tail s = leb (length tail) (length s) && eq_text (drop (length s - length tail) s) tail

abbrev pub or_next : Option ℕ → Option ℕ → Option ℕ
or_next none q = q
or_next (some p) q = some (suc p)

-- `rfind(needle)`
unfoldable pub find_last : Bytes → Bytes → Option ℕ
find_last n [] = if starts_with n [] then some 0 else none
find_last n (c ∷ cs) = or_next (find_last n cs) (if starts_with n (c ∷ cs) then some 0 else none)

abbrev pub marker_of : Bytes → Bytes
marker_of kind = codes "." ++ (kind ++ codes ".")

unfoldable pub swap_log_kind : Bytes → Bytes → Bytes → Bytes
swap_log_kind path from to = elim (find_last (marker_of from) path) [
  | none ↦ []
  | some p ↦ take p path ++ (marker_of to ++ drop (p + length (marker_of from)) path)
]

unfoldable pub any_iequals : List Bytes → Bytes → Bool
any_iequals [] want = false
any_iequals (t ∷ ts) want = iequals t want || any_iequals ts want

unfoldable pub has_token : List Bytes → Bytes → Bool
has_token toks want = if is_empty want then false else any_iequals toks want

abbrev one_if : Bool → ℕ
one_if true = 1
one_if false = 0

unfoldable pub identity_score : Bytes → SessionConfig → ℕ
identity_score stem sc =
    let toks = split stem b'-' in
    one_if (has_token toks sc.sender_comp_id)
    + one_if (has_token toks sc.target_comp_id)
    + one_if (has_token toks sc.begin_string)
    + one_if (has_token toks sc.session_qualifier)

-- the best file so far and its score, after one regular file
unfoldable pub score_entry : Bytes → SessionConfig → Bytes → Bytes → Bytes × ℕ → Bytes × ℕ
score_entry dir sc marker name (best, best_score) =
    if not (ends_with (codes ".log") name)
    then (best, best_score)
    else elim (find_text marker name) [
      | none ↦ (best, best_score)
      | some m ↦
          let score = identity_score (take m name) sc in
          if ltb best_score score then (join_path dir name, score) else (best, best_score)
    ]

-- the loop over the directory, which an error ends
unfoldable pub scan_entries :
    Bytes → SessionConfig → Bytes → List (Bytes × EntryKind) → Bytes × ℕ → Bytes × ℕ
scan_entries dir sc marker [] b = b
scan_entries dir sc marker ((name, EntryKind.regular) ∷ es) b =
    scan_entries dir sc marker es (score_entry dir sc marker name b)
scan_entries dir sc marker ((name, EntryKind.other) ∷ es) b = scan_entries dir sc marker es b
scan_entries dir sc marker ((name, EntryKind.failed) ∷ es) b = b

unfoldable pub scan_for_log : FileSystem → Bytes → SessionConfig → Bytes → Bytes
scan_for_log fs dir sc kind =
    if not (fs.is_directory dir)
    then []
    else let b = scan_entries dir sc (marker_of kind) (fs.entries dir) ([], 0) in
      if leb 2 b.1 then b.0 else []

unfoldable pub resolve_log_dir : FileSystem → Bytes → Bytes → Bytes
resolve_log_dir fs configured cfg_dir =
    if fs.is_directory configured
    then configured
    else if not (is_empty cfg_dir) && fs.is_directory (join_path cfg_dir configured)
    then join_path cfg_dir configured
    else configured

-- `add`: neither an empty name nor one that is there
unfoldable pub add_prefix : List Bytes → Bytes → List Bytes
add_prefix out p = if is_empty p || named_in out p then out else out ++ p ∷ []

unfoldable pub add_prefixes : List Bytes → List Bytes → List Bytes
add_prefixes out [] = out
add_prefixes out (p ∷ ps) = add_prefixes (add_prefix out p) ps

abbrev dash : Bytes → Bytes → Bytes
dash a b = a ++ b'-' ∷ b

-- a sub or location id, folded into the name
abbrev under : Bytes → Bytes
under id = if is_empty id then [] else b'_' ∷ id

abbrev qualified : SessionConfig → Bytes → Bytes → List Bytes
qualified sc sj tj =
    if is_empty sc.session_qualifier
    then []
    else dash sc.begin_string (dash sj (dash tj sc.session_qualifier))
      ∷ dash sc.begin_string (dash sc.sender_comp_id (dash sc.target_comp_id sc.session_qualifier))
      ∷ dash sc.sender_comp_id (dash sc.target_comp_id sc.session_qualifier)
      ∷ []

unfoldable pub quickfix_log_prefixes : SessionConfig → List Bytes
quickfix_log_prefixes sc =
    let sj = sc.sender_comp_id ++ (under sc.sender_sub_id ++ under sc.sender_location_id) in
    let tj = sc.target_comp_id ++ (under sc.target_sub_id ++ under sc.target_location_id) in
    add_prefixes [] (
      qualified sc sj tj
      ++ (dash sc.begin_string (dash sj tj)
          ∷ dash sc.begin_string (dash sc.sender_comp_id sc.target_comp_id)
          ∷ dash sc.sender_comp_id sc.target_comp_id
          ∷ []))

abbrev pub log_name : Bytes → Bytes → Bytes → Bytes
log_name prefix kind suffix = prefix ++ (b'.' ∷ (kind ++ suffix))

unfoldable pub resolve_quickfix_log : FileSystem → Bytes → List Bytes → Bytes → Bytes
resolve_quickfix_log fs dir [] kind = []
resolve_quickfix_log fs dir (p ∷ ps) kind =
    let current = join_path dir (log_name p kind (codes ".current.log")) in
    let plain = join_path dir (log_name p kind (codes ".log")) in
    let rest = resolve_quickfix_log fs dir ps kind in
    if fs.is_file current then current else if fs.is_file plain then plain else rest

abbrev pub or_else_text : Bytes → Bytes → Bytes
or_else_text [] fallback = fallback
or_else_text (c ∷ cs) fallback = c ∷ cs

-- by its names, or else by what the directory holds
unfoldable pub find_log : FileSystem → Bytes → SessionConfig → Bytes → Bytes
find_log fs dir sc kind =
    or_else_text (resolve_quickfix_log fs dir (quickfix_log_prefixes sc) kind)
      (scan_for_log fs dir sc kind)

-- nothing on disk yet: the canonical names
unfoldable pub watch : Bytes → SessionConfig → List Bytes → List Bytes → SessionConfig × List Bytes
watch dir sc [] notes = (sc, notes)
watch dir sc (front ∷ prefixes) notes =
    let message = join_path dir (front ++ codes ".messages.current.log") in
    let event = join_path dir (front ++ codes ".event.current.log") in
    (
      record sc { message_log_path = message; event_log_path = event },
      notes
          ++ (codes "no log files under "
              ++ (dir
                  ++ (codes " for " ++ (session_id sc ++ (codes " yet; watching " ++ message)))))
            ∷ [],
    )

-- what was found of the two, and the twin of one that was found alone
unfoldable pub attach_found :
    Bytes → SessionConfig → Bytes → Bytes → List Bytes → SessionConfig × List Bytes
attach_found dir sc message event notes =
    let event' =
      if is_empty event && not (is_empty message)
      then swap_log_kind message (codes "messages") (codes "event")
      else event in
    let message' =
      if not (is_empty event) && is_empty message
      then swap_log_kind event (codes "event") (codes "messages")
      else message in
    let found = record sc { message_log_path = message'; event_log_path = event' } in
    if is_empty message' && is_empty event'
    then watch dir found (quickfix_log_prefixes sc) notes
    else (found, notes)

-- The session with its two paths, and the notes.
unfoldable pub attach_logs :
    FileSystem → Bytes → SessionConfig → List Bytes → SessionConfig × List Bytes
attach_logs fs dir sc notes =
    attach_found dir sc (find_log fs dir sc (codes "messages")) (find_log fs dir sc (codes "event"))
      notes
