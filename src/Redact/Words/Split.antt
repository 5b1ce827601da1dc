-- ===== src/Redact/Words/Split.antt =====
-- Any text as words between blanks, for `redact_free_text` (fix_monitor/src/redact.cpp).
use fix_mon.Prelude.{
  ℕ, ◌≡◌, refl, ap, ◌∙◌, inl, inr, true, false, List, [], ◌∷◌, Bytes, if◌then◌else◌, Free, arith,
  Bool-cases,
}
use fix_mon.Redact.Keys.{is_space}
use fix_mon.Redact.Prose.{redact_free_text}
use fix_mon.Redact.Words.{
  StopsAt, Word, encode, is_text, IsWord, Separated, scrub_words, redact-encode,
}

abbrev Words : Type 0
Words = List Word × Bytes

add_blank : ℕ → Words → Words
add_blank c ([], tail) = ([], c ∷ tail)
add_blank c (w ∷ ws, tail) = (record w { gap = c ∷ w.gap } ∷ ws, tail)

-- onto the word, if no blank stands before it
add_onto : ℕ → Bytes → Bytes → List Word → List Word
add_onto c [] token ws = record { gap = []; token = c ∷ token } ∷ ws
add_onto c (g ∷ gap) token ws =
    record { gap = []; token = c ∷ [] } ∷ record { gap = g ∷ gap; token = token } ∷ ws

add_text : ℕ → Words → Words
add_text c ([], tail) = (record { gap = []; token = c ∷ [] } ∷ [], tail)
add_text c (w ∷ ws, tail) = (add_onto c w.gap w.token ws, tail)

abbrev Splits : Bytes → Words → Type 0
Splits text (ws, tail) = (text ≡ encode ws tail) × Separated ws tail

is_text_of : (c : ℕ) → is_space c ≡ true → is_text c ≡ false
is_text_of c h = rw h

space_of_not_text : (c : ℕ) → is_text c ≡ false → is_space c ≡ true
space_of_not_text c h = ground arith

stops_tail : (tail : Bytes) → Free is_text tail → StopsAt is_space tail
stops_tail [] f = tt
stops_tail (c ∷ cs) f = space_of_not_text c f.0

add_blank-Splits :
    (c : ℕ) (text : Bytes) (p : Words)
    → is_space c ≡ true
    → Splits text p
    → Splits (c ∷ text) (add_blank c p)
unfolding add_blank
add_blank-Splits c text ([], tail) s (e, k) = (ap (λ l. c ∷ l) e, (is_text_of c s, k))
add_blank-Splits c text (w ∷ ws, tail) s (e, (k, stop, more)) = (
  ap (λ l. c ∷ l) e,
  (
    record { blanks = (is_text_of c s, k.blanks); not_empty = k.not_empty; no_blank = k.no_blank },
    stop,
    more,
  ),
)

single : (c : ℕ) → is_space c ≡ false → IsWord (record { gap = []; token = c ∷ [] })
single c s = record { blanks = tt; not_empty = λ e. cc; no_blank = (s, tt) }

add_onto-Splits :
    (c : ℕ) (text gap token : Bytes) (ws : List Word) (tail : Bytes)
    → is_space c ≡ false
    → Splits text (record { gap = gap; token = token } ∷ ws, tail)
    → Splits (c ∷ text) (add_onto c gap token ws, tail)
unfolding add_onto
add_onto-Splits c text [] token ws tail s (e, (k, stop, more)) = (
  ap (λ l. c ∷ l) e,
  (record { blanks = tt; not_empty = λ e. cc; no_blank = (s, k.no_blank) }, stop, more),
)
add_onto-Splits c text (g ∷ gap) token ws tail s (e, (k, stop, more)) =
    (ap (λ l. c ∷ l) e, (single c s, space_of_not_text g k.blanks.0, (k, stop, more)))

add_text-Splits :
    (c : ℕ) (text : Bytes) (p : Words)
    → is_space c ≡ false
    → Splits text p
    → Splits (c ∷ text) (add_text c p)
unfolding add_text
add_text-Splits c text ([], tail) s (e, k) = (ap (λ l. c ∷ l) e, (single c s, stops_tail tail k, k))
add_text-Splits c text (w ∷ ws, tail) s h = add_onto-Splits c text w.gap w.token ws tail s h

split_words : Bytes → Words
split_words [] = ([], [])
split_words (c ∷ cs) =
    let rest = split_words cs in if is_space c then add_blank c rest else add_text c rest

split_words-Splits : (text : Bytes) → Splits text (split_words text)
unfolding split_words
split_words-Splits [] = (refl, tt)
split_words-Splits (c ∷ cs) = elim (Bool-cases (is_space c)) [
  | inl e ↦ rw (e, Splits) (add_blank-Splits c cs (split_words cs) e (split_words-Splits cs))
  | inr e ↦ rw (e, Splits) (add_text-Splits c cs (split_words cs) e (split_words-Splits cs))
]

-- Every text is words between blanks, and comes back with the same blanks and as many tokens, each
-- written as `judge` has it from the token itself and the window that the tokens before it leave.
pub redact_free_text_words :
    (text : Bytes)
    → (ws : List Word) × (tail : Bytes) × (text ≡ encode ws tail)
      × Separated ws tail
      × (redact_free_text text ≡ encode (scrub_words 0 ws) tail)
redact_free_text_words text =
    let (ws, tail) = split_words text in
    let (e, k) = split_words-Splits text in
    (ws, tail, e, k, ap redact_free_text e ∙ redact-encode ws tail k)
