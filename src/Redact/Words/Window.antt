-- ===== src/Redact/Words/Window.antt =====
-- The window behind a credential word in `redact_free_text` (fix_monitor/src/redact.cpp).
use fix_mon.Prelude.{
  ℕ, zero, suc, ◌<◌, ◌≡◌, ap, ◌∙◌, Bool, true, false, none, List, [], ◌∷◌, ◌++◌, All, Bytes, length,
  is_empty, arith,
}
use fix_mon.Redact.Keys.{redacted, fold, is_stop_word, strip_punct, is_sensitive_key}
use fix_mon.Redact.Prose.{
  redact_free_text, assigned_at, judge, plain_token, in_window, window, keep,
}
use fix_mon.Redact.Words.{Word, encode, Separated, scrub_words, redact-encode}

-- a token that is a credential word, such as "password" or "(User:"
pub record IsNoun (w : Word) : Type 0 where
  pub not_assigned : assigned_at w.token ≡ none
  pub named : is_empty (strip_punct w.token) ≡ false
  pub sensitive : is_sensitive_key (strip_punct w.token) ≡ true

-- a token that is neither such a word nor punctuation; a connector is a stop word, a value is not
pub record IsOther (stop : Bool) (w : Word) : Type 0 where
  pub not_assigned : assigned_at w.token ≡ none
  pub named : is_empty (strip_punct w.token) ≡ false
  pub harmless : is_sensitive_key (strip_punct w.token) ≡ false
  pub stops : is_stop_word (fold (strip_punct w.token)) ≡ stop

judge-IsNoun : (pending : ℕ) (w : Word) → IsNoun w → judge pending w.token ≡ keep w.token window
unfolding judge plain_token
judge-IsNoun pending w n = rw (n.not_assigned, judge, n.named, n.sensitive)

judge-connector :
    (left : ℕ) (w : Word) → IsOther true w → judge (suc left) w.token ≡ keep w.token left
unfolding judge plain_token in_window
judge-connector left w o = rw (o.not_assigned, judge, o.named, o.harmless, o.stops)

judge-value :
    (left : ℕ) (w : Word)
    → IsOther false w
    → judge (suc left) w.token ≡ record { written = redacted; changes = true; pending = 0 }
unfolding judge plain_token in_window
judge-value left w o = rw (o.not_assigned, judge, o.named, o.harmless, o.stops)

scrub-connectors :
    (connectors : List Word) (pending : ℕ) (value : Word) (rest : List Word)
    → length connectors < pending
    → All (IsOther true) connectors
    → IsOther false value
    → scrub_words pending (connectors ++ value ∷ rest)
      ≡ connectors ++ record value { token = redacted } ∷ scrub_words 0 rest
scrub-connectors cs zero value rest h a o = elim h [ ]
scrub-connectors [] (suc left) value rest h a o = rw (judge-value left value o)
scrub-connectors (c ∷ cs) (suc left) value rest h a o =
    rw (judge-connector left c a.0)
      (ap (λ l. c ∷ l) (scrub-connectors cs left value rest (omega arith) a.1 o))

-- A credential word, fewer than four connectors ("password rejected for"), and a value: the value
-- is written as <redacted>, the words before it stay as they are, and what follows is read afresh.
pub redact_free_text_value :
    (noun : Word) (connectors : List Word) (value : Word) (rest : List Word) (tail : Bytes)
    → length connectors < 4
    → IsNoun noun
    → All (IsOther true) connectors
    → IsOther false value
    → Separated (noun ∷ (connectors ++ value ∷ rest)) tail
    → redact_free_text (encode (noun ∷ (connectors ++ value ∷ rest)) tail)
      ≡ encode (noun ∷ (connectors ++ record value { token = redacted } ∷ scrub_words 0 rest)) tail
redact_free_text_value noun connectors value rest tail h n a o k =
    redact-encode (noun ∷ (connectors ++ value ∷ rest)) tail k
    ∙ rw (judge-IsNoun 0 noun n, scrub-connectors connectors window value rest h a o)
