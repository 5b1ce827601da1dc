-- ===== src/Pipeline/Quoting.antt =====
-- Texts in the document of the sessions, and how a reader of JSON takes them.
use fix_mon.Prelude.{
  ℕ, false, ◌||◌, Option, none, some, [], ◌∷◌, ◌++◌, map, Bytes, ltb, ◌==◌, if◌then◌else◌,
  append_assoc, ==_iff, ◌≡◌, refl, ap, ◌∙◌, inl, inr, Bool-cases,
}
use fix_mon.Pipeline.Json.{json_byte, json_escape}

abbrev before_rest : ℕ → Option (Bytes × Bytes) → Option (Bytes × Bytes)
before_rest c none = none
before_rest c (some (s, rest)) = some (c ∷ s, rest)

abbrev unescaped : ℕ → ℕ
unescaped d = if d == b'n' then b'\n' else if d == b'r' then 13 else if d == b't' then b'\t' else d

-- A string literal behind its opening quote: its text, and what follows the closing quote.
abbrev pub read_string : Bytes → Option (Bytes × Bytes)
read_string [] = none
read_string (c ∷ []) = if c == 34 then some ([], []) else none
read_string (c ∷ (d ∷ cs)) =
    let long = read_string cs in
    let short = read_string (d ∷ cs) in
    if c == 34
    then some ([], d ∷ cs)
    else if c == 92
    then before_rest (unescaped d) long
    else before_rest c short

-- a control character that has no short escape is shown as a space
abbrev pub shown : ℕ → ℕ
shown c = if c == b'\n' || (c == 13 || c == b'\t') then c else if ltb c 32 then b' ' else c

read_plain :
    (c : ℕ) (t : Bytes)
    → (c == 34) ≡ false
    → (c == 92) ≡ false
    → read_string (c ∷ t) ≡ before_rest c (read_string t)
read_plain c [] e f = rw e
read_plain c (d ∷ t) e f = rw (e, f)

read_byte :
    (c : ℕ) (t : Bytes) → read_string (json_byte c ++ t) ≡ before_rest (shown c) (read_string t)
unfolding json_byte
read_byte c t = elim (Bool-cases (c == 34)) [
  | inl e ↦ rw ((==_iff c 34).0 e) refl
  | inr e ↦ elim (Bool-cases (c == 92)) [
    | inl f ↦ rw ((==_iff c 92).0 f) refl
    | inr f ↦ elim (Bool-cases (c == b'\n')) [
      | inl g ↦ rw ((==_iff c b'\n').0 g) refl
      | inr g ↦ elim (Bool-cases (c == 13)) [
        | inl h ↦ rw ((==_iff c 13).0 h) refl
        | inr h ↦ elim (Bool-cases (c == b'\t')) [
          | inl i ↦ rw ((==_iff c b'\t').0 i) refl
          | inr i ↦ elim (Bool-cases (ltb c 32)) [
            | inl j ↦ rw (e, f, g, h, i, j) (read_plain b' ' t refl refl)
            | inr j ↦ rw (e, f, g, h, i, j) (read_plain c t e f)
          ]
        ]
      ]
    ]
  ]
]

-- Whatever is in a text, such as the words of a counterparty: behind an opening quote, its escaped
-- form and a closing quote are read back as the text itself, with a space for each control
-- character other than line feed, carriage return and tab, and the reader goes on where the literal
-- was meant to end. So an escaped text cannot break out of its place in the document.
pub read_string-json_escape :
    (s rest : Bytes) → read_string (json_escape s ++ (34 ∷ rest)) ≡ some (map shown s, rest)
unfolding json_escape
read_string-json_escape [] [] = refl
read_string-json_escape [] (r ∷ rest) = refl
read_string-json_escape (c ∷ s) rest =
    ap read_string (append_assoc (json_byte c) (json_escape s) (34 ∷ rest))
    ∙ read_byte c (json_escape s ++ (34 ∷ rest))
    ∙ ap (before_rest (shown c)) (read_string-json_escape s rest)
