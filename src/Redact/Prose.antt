-- ===== src/Redact/Prose.antt =====
-- `redact_free_text` of fix_monitor/src/redact.cpp.
use fix_mon.Prelude.{
  ℕ, zero, suc, ◌+◌, Bool, true, false, not, ◌&&◌, ◌||◌, Option, none, some, [], ◌∷◌, ◌++◌, Bytes,
  length, take, drop, is_empty, ltb, ◌==◌, if◌then◌else◌, find_index,
}
use fix_mon.Redact.Keys.{redacted, fold, is_stop_word, is_space, strip_punct, is_sensitive_key}

-- the first place that passes the test, or the end
unfoldable pub index_or_end : (ℕ → Bool) → Bytes → ℕ
index_or_end p [] = 0
index_or_end p (c ∷ cs) = if p c then 0 else suc (index_or_end p cs)

abbrev pub window : ℕ
window = 4

-- what is written for a token, whether that is a change, and the tokens left in which a value may
-- still appear
pub record Verdict : Type 0 where
  pub written : Bytes
  pub changes : Bool
  pub pending : ℕ

-- "password=hunter2": the place of the separator, where a secret stands behind it
unfoldable pub assigned_at : Bytes → Option ℕ
assigned_at tok = elim (find_index (λ c. c == b'=' || c == b':') tok) [
  | none ↦ none
  | some sep ↦
      if ltb 0 sep && (ltb (sep + 1) (length tok) && is_sensitive_key (strip_punct (take sep tok)))
      then some sep
      else none
]

abbrev pub keep : Bytes → ℕ → Verdict
keep tok pending = record { written = tok; changes = false; pending = pending }

-- a token that is no noun, inside the window
unfoldable pub in_window : ℕ → Bytes → Bytes → Verdict
in_window zero tok bare = keep tok 0
in_window (suc left) tok bare =
    if is_stop_word (fold bare)
    then keep tok left
    else record { written = redacted; changes = true; pending = 0 }

unfoldable pub plain_token : ℕ → Bytes → Bytes → Verdict
plain_token pending tok bare =
    if is_empty bare
    then keep tok pending
    else if is_sensitive_key bare
    then keep tok window
    else in_window pending tok bare

unfoldable pub judge : ℕ → Bytes → Verdict
judge pending tok = elim (assigned_at tok) [
  | some sep ↦ record { written = take (sep + 1) tok ++ redacted; changes = true; pending = 0 }
  | none ↦ plain_token pending tok (strip_punct tok)
]

-- The loop, on fuel; `none` means that the fuel ran out.
unfoldable pub scrub_loop : ℕ → Bytes → ℕ → Bytes → Bool → Option (Bytes × Bool)
scrub_loop zero rest pending out changed = none
scrub_loop (suc fuel) rest pending out changed =
    let s = index_or_end (λ c. not (is_space c)) rest in
    let after = drop s rest in
    let e = index_or_end is_space after in
    let v = judge pending (take e after) in
    let next =
      scrub_loop fuel (drop e after) v.pending ((out ++ take s rest) ++ v.written)
        (changed || v.changes) in
    if is_empty after then some (out ++ take s rest, changed) else next

-- what is returned: the text itself unless something was changed
abbrev pub settle : Bytes → Option (Bytes × Bool) → Bytes
settle text none = text
settle text (some (out, changed)) = if changed then out else text

unfoldable pub redact_free_text : Bytes → Bytes
redact_free_text text = settle text (scrub_loop (suc (length text)) text 0 [] false)
