-- ===== src/QuickFix/Reader.antt =====
-- `parse_quickfix_settings` of fix_monitor/src/quickfix_config.cpp, one line at a time.
use fix_mon.Prelude.{
  ℕ, suc, ◌+◌, ◌-◌, Bool, false, ◌&&◌, ◌||◌, none, some, List, [], ◌∷◌, ◌++◌, Bytes, codes, length,
  take, drop, get_or, is_empty, ◌==◌, if◌then◌else◌, find_index, get_lines, to_string,
}
use fix_mon.Config.Values.{trim}
use fix_mon.Redact.Keys.{is_sensitive_key}
use fix_mon.QuickFix.Dictionary.{Dictionary, Block, iequals, assign, overlay}

pub record Settings : Type 0 where
  pub path : Bytes
  pub defaults : Dictionary
  pub sessions : List Block
  pub warnings : List Bytes

pub data Sec : Type 0 where
  outside default session : Sec

-- the local variables of the loop
pub record Reader : Type 0 where
  pub sec : Sec
  pub defaults : Dictionary
  pub default_redacted : List Bytes
  pub current : Dictionary
  pub current_redacted : List Bytes
  pub lineno : ℕ
  pub sessions : List Block
  pub warnings : List Bytes

abbrev pub new_reader : Reader
new_reader = record {
  sec = Sec.outside;
  defaults = [];
  default_redacted = [];
  current = [];
  current_redacted = [];
  lineno = 0;
  sessions = [];
  warnings = [];
}

unfoldable pub remembers : List Bytes → Bytes → Bool
remembers [] key = false
remembers (k ∷ ks) key = iequals k key || remembers ks key

unfoldable pub remember_redacted : List Bytes → Bytes → List Bytes
remember_redacted v key = if remembers v key then v else v ++ key ∷ []

unfoldable pub remember_all : List Bytes → List Bytes → List Bytes
remember_all v [] = v
remember_all v (k ∷ ks) = remember_all (remember_redacted v k) ks

unfoldable pub block_of : Reader → Block
block_of r = record {
  values = overlay r.defaults r.current;
  redacted_keys = remember_all r.default_redacted r.current_redacted;
}

unfoldable pub commit : Reader → Reader
commit r = elim r.sec [
  | Sec.session ↦ record r {
    sessions = r.sessions ++ block_of r ∷ [];
    current = [];
    current_redacted = [];
  }
  | _ ↦ r
]

unfoldable pub warn : Bytes → Bytes → Reader → Reader
warn origin what r = record r {
  warnings = r.warnings ++ (origin ++ codes ":" ++ to_string r.lineno ++ codes ": " ++ what) ∷ [];
}

unfoldable pub on_section : Bytes → Bytes → Reader → Reader
on_section origin name r =
    if iequals name (codes "DEFAULT")
    then record r { sec = Sec.default }
    else if iequals name (codes "SESSION")
    then record r { sec = Sec.session }
    else warn origin (codes "ignoring unknown section [" ++ name ++ codes "]")
        (record r { sec = Sec.outside })

-- a credential: its name is kept, and its value goes nowhere
unfoldable pub forget : Bytes → Reader → Reader
forget key r = elim r.sec [
  | Sec.default ↦ record r { default_redacted = remember_redacted r.default_redacted key }
  | _ ↦ record r { current_redacted = remember_redacted r.current_redacted key }
]

unfoldable pub store : Bytes → Bytes → Bytes → Reader → Reader
store origin key val r = elim r.sec [
  | Sec.default ↦ record r { defaults = assign key val r.defaults }
  | Sec.session ↦ record r { current = assign key val r.current }
  | Sec.outside ↦
      warn origin (codes "'" ++ key ++ codes "' sits outside [DEFAULT] and [SESSION], ignored") r
]

unfoldable pub on_key : Bytes → Bytes → Bytes → Reader → Reader
on_key origin key val r =
    if is_empty key
    then r
    else if is_sensitive_key key
    then forget key r
    else store origin key val r

unfoldable pub on_entry : Bytes → Bytes → Reader → Reader
on_entry origin t r = elim (find_index (λ c. c == b'=') t) [
  | none ↦ warn origin (codes "no '=' on this line, ignored") r
  | some eq ↦ on_key origin (trim (take eq t)) (trim (drop (suc eq) t)) r
]

-- a line, trimmed
unfoldable pub on_text : Bytes → Bytes → Reader → Reader
on_text origin [] r = r
on_text origin (c ∷ t) r =
    if c == b'#'
    then r
    else if c == b'[' && get_or (c ∷ t) (length t) 0 == b']'
    then on_section origin (trim (take (length t - 1) t)) (commit r)
    else on_entry origin (c ∷ t) r

unfoldable pub read_line : Bytes → Bytes → Reader → Reader
read_line origin line r = on_text origin (trim line) (record r { lineno = r.lineno + 1 })

unfoldable pub read_lines : Bytes → List Bytes → Reader → Reader
read_lines origin [] r = r
read_lines origin (l ∷ ls) r = read_lines origin ls (read_line origin l r)

unfoldable pub finish : Bytes → Reader → Settings
finish origin r =
    let sessions = (commit r).sessions in
    record {
      path = origin;
      defaults = r.defaults;
      sessions = sessions;
      warnings =
          if is_empty sessions
          then r.warnings ++ (origin ++ codes ": no [SESSION] blocks found") ∷ []
          else r.warnings;
    }

unfoldable pub parse_quickfix_settings : Bytes → Bytes → Settings
parse_quickfix_settings text origin = finish origin (read_lines origin (get_lines text) new_reader)
