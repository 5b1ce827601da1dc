-- ===== src/Redact/Words.antt =====
-- `redact_free_text` of fix_monitor/src/redact.cpp on a text written from words.
pub mod Split
pub mod Window
use fix_mon.Prelude.{
  ℕ, zero, suc, ◌+◌, ◌≤◌, ◌<◌, ◌≡◌, ◌≢◌, refl, sym, ap, ap₂, ◌∙◌, inl, inr, Bool, true, false, not,
  ◌||◌, Option, none, some, List, [], ◌∷◌, ◌++◌, append_assoc, append-nil, Bytes, length, take,
  drop, length-append, take-length-append, drop-length-append, is_empty, if◌then◌else◌, Free, arith,
  Option-cases, Bool-cases,
}
use fix_mon.Redact.Keys.{redacted, fold, is_stop_word, is_space, strip_punct, is_sensitive_key}
use fix_mon.Redact.Prose.{
  index_or_end, Verdict, keep, assigned_at, in_window, plain_token, judge, scrub_loop, settle,
  redact_free_text,
}

-- the text ends here, or goes on with a byte that passes the test
abbrev pub StopsAt : (ℕ → Bool) → Bytes → Type 0
StopsAt p [] = Unit
StopsAt p (c ∷ cs) = p c ≡ true

pub index_or_end-append :
    (p : ℕ → Bool) (xs ys : Bytes)
    → Free p xs
    → StopsAt p ys
    → index_or_end p (xs ++ ys) ≡ length xs
unfolding index_or_end
index_or_end-append p [] [] f h = refl
index_or_end-append p [] (c ∷ ys) f h = rw h
index_or_end-append p (x ∷ xs) ys f h = rw (f.0, index_or_end-append p xs ys f.1 h)

pub record Word : Type 0 where
  pub gap : Bytes
  pub token : Bytes

-- the words, each behind its blanks, and the blanks at the end
abbrev pub encode : List Word → Bytes → Bytes
encode [] tail = tail
encode (w ∷ ws) tail = w.gap ++ (w.token ++ encode ws tail)

abbrev pub is_text : ℕ → Bool
is_text c = not (is_space c)

pub record IsWord (w : Word) : Type 0 where
  pub blanks : Free is_text w.gap
  pub not_empty : w.token ≢ []
  pub no_blank : Free is_space w.token

-- words whose tokens do not touch
abbrev pub Separated : List Word → Bytes → Type 0
Separated [] tail = Free is_text tail
Separated (w ∷ ws) tail = IsWord w × StopsAt is_space (encode ws tail) × Separated ws tail

-- each token judged in turn
abbrev pub scrub_words : ℕ → List Word → List Word
scrub_words pending [] = []
scrub_words pending (w ∷ ws) =
    record { gap = w.gap; token = (judge pending w.token).written }
    ∷ scrub_words (judge pending w.token).pending ws

abbrev changes_in : ℕ → List Word → Bool
changes_in pending [] = false
changes_in pending (w ∷ ws) =
    (judge pending w.token).changes || changes_in (judge pending w.token).pending ws

StopsAt-token : (t ys : Bytes) → t ≢ [] → Free is_space t → StopsAt is_text (t ++ ys)
StopsAt-token [] ys ne f = absurd (ne refl)
StopsAt-token (c ∷ t) ys ne f = ground arith

empty-append : (t ys : Bytes) → t ≢ [] → is_empty (t ++ ys) ≡ false
empty-append [] ys ne = absurd (ne refl)
empty-append (c ∷ t) ys ne = refl

-- One round of the loop takes one word.
scrub_step :
    (fuel : ℕ) (w : Word) (rest : Bytes) (pending : ℕ) (out : Bytes) (changed : Bool)
    → IsWord w
    → StopsAt is_space rest
    → scrub_loop (suc fuel) (w.gap ++ (w.token ++ rest)) pending out changed
      ≡ scrub_loop fuel rest
          (judge pending w.token).pending
          ((out ++ w.gap) ++ (judge pending w.token).written)
          (changed || (judge pending w.token).changes)
unfolding scrub_loop
scrub_step fuel w rest pending out changed k h = rw (
  index_or_end-append is_text w.gap (w.token ++ rest) k.blanks
      (StopsAt-token w.token rest k.not_empty k.no_blank),
  scrub_loop,
  drop-length-append w.gap (w.token ++ rest),
  take-length-append w.gap (w.token ++ rest),
  index_or_end-append is_space w.token rest k.no_blank h,
  take-length-append w.token rest,
  drop-length-append w.token rest,
  empty-append w.token rest k.not_empty,
)

drop_all : (xs : Bytes) → drop (length xs) xs ≡ []
drop_all [] = refl
drop_all (x ∷ xs) = drop_all xs

take_all : (xs : Bytes) → take (length xs) xs ≡ xs
take_all [] = refl
take_all (x ∷ xs) = ap (λ l. x ∷ l) (take_all xs)

index_or_end-all : (p : ℕ → Bool) (xs : Bytes) → Free p xs → index_or_end p xs ≡ length xs
unfolding index_or_end
index_or_end-all p [] f = refl
index_or_end-all p (x ∷ xs) f = rw (f.0, index_or_end-all p xs f.1)

scrub_end :
    (fuel : ℕ) (tail : Bytes) (pending : ℕ) (out : Bytes) (changed : Bool)
    → Free is_text tail
    → scrub_loop (suc fuel) tail pending out changed ≡ some (out ++ tail, changed)
unfolding scrub_loop
scrub_end fuel tail pending out changed f =
    rw (index_or_end-all is_text tail f, scrub_loop, drop_all tail, take_all tail)

token_pos : (t : Bytes) → t ≢ [] → 0 < length t
token_pos [] ne = absurd (ne refl)
token_pos (c ∷ t) ne = omega arith

or_assoc : (a b c : Bool) → (a || (b || c)) ≡ ((a || b) || c)
or_assoc true b c = refl
or_assoc false b c = refl

or_false : (a : Bool) → (a || false) ≡ a
or_false true = refl
or_false false = refl

scrub_loop-encode :
    (ws : List Word) (fuel : ℕ) (tail : Bytes) (pending : ℕ) (out : Bytes) (changed : Bool)
    → Separated ws tail
    → length (encode ws tail) < fuel
    → scrub_loop fuel (encode ws tail) pending out changed
      ≡ some (out ++ encode (scrub_words pending ws) tail, changed || changes_in pending ws)
scrub_loop-encode ws zero tail pending out changed k h = elim h [ ]
scrub_loop-encode [] (suc fuel) tail pending out changed k h =
    scrub_end fuel tail pending out changed k ∙ rw or_false
scrub_loop-encode (w ∷ ws) (suc fuel) tail pending out changed (k, stop, more) h =
    let v : Verdict = judge pending w.token in
    let shorter : length (encode ws tail) < fuel = omega (
      arith,
      length-append w.gap (w.token ++ encode ws tail),
      length-append w.token (encode ws tail),
      token_pos w.token k.not_empty,
    ) in
    scrub_step fuel w (encode ws tail) pending out changed k stop
    ∙ scrub_loop-encode ws fuel tail v.pending ((out ++ w.gap) ++ v.written) (changed || v.changes)
        more shorter
    ∙ rw (append_assoc, append_assoc, or_assoc)

-- a verdict that is no change writes the token
judge_same :
    (pending : ℕ) (tok : Bytes)
    → (judge pending tok).changes ≡ false
    → (judge pending tok).written ≡ tok
unfolding judge plain_token in_window
judge_same pending tok h = ground arith

scrub_same :
    (pending : ℕ) (ws : List Word) → changes_in pending ws ≡ false → scrub_words pending ws ≡ ws
scrub_same pending [] h = refl
scrub_same pending (w ∷ ws) h =
    ap₂ (λ t r. record { gap = w.gap; token = t } ∷ r) (judge_same pending w.token (ground arith))
      (scrub_same (judge pending w.token).pending ws (ground arith))

pub redact-encode :
    (ws : List Word) (tail : Bytes)
    → Separated ws tail
    → redact_free_text (encode ws tail) ≡ encode (scrub_words 0 ws) tail
unfolding redact_free_text
redact-encode ws tail k =
    rw (scrub_loop-encode ws (suc (length (encode ws tail))) tail 0 [] false k (omega arith))
      (elim (Bool-cases (changes_in 0 ws)) [ inl e ↦ rw e | inr e ↦ rw (e, scrub_same 0 ws e) ])
