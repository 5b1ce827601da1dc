-- ===== src/Redact/Keys.antt =====
-- `fold`, the word tables and `is_sensitive_key` of fix_monitor/src/redact.cpp. Characters are
-- those of the C locale.
use fix_mon.Prelude.{
  ℕ, Bool, true, false, not, ◌&&◌, ◌||◌, Option, none, some, List, [], ◌∷◌, Bytes, codes, is_empty,
  ◌==◌, if◌then◌else◌, eq_text, find_text, drop_while, drop_while_end, to_lower, is_alnum,
}

abbrev pub redacted : Bytes
redacted = codes "<redacted>"

-- `kMasked`
abbrev pub masked : Bytes
masked = codes "<masked>"

-- the bytes that `fold` drops
abbrev pub is_joint : ℕ → Bool
is_joint c = c == b'_' || c == b'-' || c == b'.' || c == b' '

-- Lowercases and drops separators.
unfoldable pub fold : Bytes → Bytes
fold [] = []
fold (c ∷ cs) = let rest = fold cs in if is_joint c then rest else to_lower c ∷ rest

abbrev pub exact_names : List Bytes
exact_names =
    codes "username"
    ∷ codes "user"
    ∷ codes "userid"
    ∷ codes "login"
    ∷ codes "logonname"
    ∷ codes "account"
    ∷ codes "accountid"
    ∷ codes "authenticator"
    ∷ []

abbrev pub fragments : List Bytes
fragments =
    codes "password"
    ∷ codes "passwd"
    ∷ codes "passphrase"
    ∷ codes "secret"
    ∷ codes "token"
    ∷ codes "apikey"
    ∷ codes "credential"
    ∷ codes "privatekey"
    ∷ codes "keystore"
    ∷ codes "truststore"
    ∷ codes "certificatekey"
    ∷ codes "sharedkey"
    ∷ codes "hmac"
    ∷ codes "salt"
    ∷ []

abbrev pub stop_words : List Bytes
stop_words =
    codes "or"
    ∷ codes "and"
    ∷ codes "for"
    ∷ codes "the"
    ∷ codes "a"
    ∷ codes "an"
    ∷ codes "is"
    ∷ codes "was"
    ∷ codes "not"
    ∷ codes "no"
    ∷ codes "in"
    ∷ codes "of"
    ∷ codes "to"
    ∷ codes "with"
    ∷ codes "from"
    ∷ codes "invalid"
    ∷ codes "incorrect"
    ∷ codes "bad"
    ∷ codes "missing"
    ∷ codes "required"
    ∷ codes "expired"
    ∷ codes "mismatch"
    ∷ codes "error"
    ∷ codes "failed"
    ∷ codes "failure"
    ∷ codes "does"
    ∷ codes "did"
    ∷ codes "must"
    ∷ codes "cannot"
    ∷ codes "empty"
    ∷ codes "null"
    ∷ codes "unknown"
    ∷ codes "rejected"
    ∷ codes "wrong"
    ∷ []

-- whether the text is one of the words
unfoldable pub listed : List Bytes → Bytes → Bool
listed [] k = false
listed (w ∷ ws) k = eq_text k w || listed ws k

abbrev pub is_some : Option ℕ → Bool
is_some none = false
is_some (some _) = true

unfoldable pub contains : Bytes → Bytes → Bool
contains k f = is_some (find_text f k)

-- whether the text holds one of the fragments
unfoldable pub holds : List Bytes → Bytes → Bool
holds [] k = false
holds (f ∷ fs) k = contains k f || holds fs k

unfoldable pub is_stop_word : Bytes → Bool
is_stop_word folded = listed stop_words folded

unfoldable pub is_space : ℕ → Bool
is_space c = c == b' ' || c == b'\t' || c == 13 || c == b'\n'

unfoldable pub strip_punct : Bytes → Bytes
strip_punct s = drop_while_end (λ c. not (is_alnum c)) (drop_while (λ c. not (is_alnum c)) s)

-- the tests behind `fold`
unfoldable pub is_sensitive_name : Bytes → Bool
is_sensitive_name k = not (is_empty k) && (listed exact_names k || holds fragments k)

unfoldable pub is_sensitive_key : Bytes → Bool
is_sensitive_key key = is_sensitive_name (fold key)

unfoldable pub redact_if_sensitive : Bytes → Bytes → Bytes
redact_if_sensitive key value = if is_sensitive_key key then redacted else value
