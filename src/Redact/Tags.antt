-- ===== src/Redact/Tags.antt =====
-- The tag tables and `parse_tag` of fix_monitor/src/redact.cpp.
use fix_mon.Prelude.{
  ℕ, ◌+◌, ◌-◌, ◌*◌, ◌≡◌, refl, Bool, true, not, ◌||◌, ◌&&◌, Option, none, some, List, [], ◌∷◌,
  Bytes, ltb, ◌==◌, if◌then◌else◌, one_of, is_digit, arith, Bool-cases, ==_iff, inl, inr,
}

unfoldable pub is_fix_separator : ℕ → Bool
is_fix_separator c = c == 1 || c == b'|'

unfoldable pub is_free_text_tag : ℕ → Bool
is_free_text_tag tag = one_of tag (58 ∷ 147 ∷ 148 ∷ [])

unfoldable pub is_opaque_text_tag : ℕ → Bool
is_opaque_text_tag tag = one_of tag (355 ∷ 349 ∷ 351 ∷ [])

-- `none` for the -1 of the default case
unfoldable pub data_tag_for_length_tag : ℕ → Option ℕ
data_tag_for_length_tag tag =
    if tag == 90
    then some 91
    else if tag == 95
    then some 96
    else if tag == 354
    then some 355
    else none

unfoldable pub parse_tag_from : ℕ → Bytes → Option ℕ
parse_tag_from v [] = some v
parse_tag_from v (c ∷ cs) =
    let w = v * 10 + (c - b'0') in
    let rest = parse_tag_from w cs in
    if is_digit c then (if ltb 100000 w then none else rest) else none

-- `none` for -1
unfoldable pub parse_tag : Bytes → Option ℕ
parse_tag [] = none
parse_tag (c ∷ cs) = parse_tag_from 0 (c ∷ cs)

abbrev pub credential_tags : List ℕ
credential_tags = 553 ∷ 554 ∷ 925 ∷ 1400 ∷ 1401 ∷ 1402 ∷ 1403 ∷ 1404 ∷ 90 ∷ 91 ∷ 95 ∷ 96 ∷ []

unfoldable pub is_credential_tag : ℕ → Bool
is_credential_tag tag = one_of tag credential_tags

abbrev pub business_tags : List ℕ
business_tags =
    1 ∷ 109 ∷ 76 ∷ 448 ∷ 11 ∷ 17 ∷ 37 ∷ 41 ∷ 198 ∷ 526 ∷ 48 ∷ 55 ∷ 65 ∷ 54 ∷ 38 ∷ 44 ∷ 99 ∷ 110
    ∷ 152 ∷ 210 ∷ 6 ∷ 14 ∷ 31 ∷ 32 ∷ 151 ∷ []

unfoldable pub is_business_tag : ℕ → Bool
is_business_tag tag = one_of tag business_tags

-- the tags that diagnosis runs on, by the list in fix_monitor/include/fixmon/redact.hpp
abbrev pub diagnostic : List ℕ
diagnostic = 35 ∷ 34 ∷ 49 ∷ 56 ∷ 52 ∷ 39 ∷ 45 ∷ 371 ∷ 373 ∷ 380 ∷ []

each : (ℕ → Bool) → List ℕ → Bool
each p [] = true
each p (x ∷ xs) = p x && each p xs

each-one_of :
    (p : ℕ → Bool) (t : ℕ) (xs : List ℕ) → each p xs ≡ true → one_of t xs ≡ true → p t ≡ true
unfolding each
each-one_of p t [] h m = cc
each-one_of p t (x ∷ xs) h m = elim (Bool-cases (t == x)) [
  | inl e ↦ rw ((==_iff t x).0 e) (ground arith)
  | inr e ↦ each-one_of p t xs (ground arith) (ground arith)
]

pub credential_pos : (t : ℕ) → is_credential_tag t ≡ true → ltb 0 t ≡ true
unfolding is_credential_tag each
credential_pos t m = each-one_of (λ x. ltb 0 x) t credential_tags refl m

-- The tables do not overlap.
pub opaque_apart :
    (t : ℕ) → is_opaque_text_tag t ≡ true → (ltb 0 t && not (is_credential_tag t)) ≡ true
unfolding is_opaque_text_tag
opaque_apart t m =
    each-one_of (λ x. ltb 0 x && not (is_credential_tag x)) t (355 ∷ 349 ∷ 351 ∷ [])
      (unfold each is_credential_tag in refl) m

abbrev pub neither : ℕ → Bool
neither x =
    ltb 0 x
    && (not (is_credential_tag x) && (not (is_opaque_text_tag x) && not (is_free_text_tag x)))

pub business_apart : (t : ℕ) → is_business_tag t ≡ true → neither t ≡ true
unfolding is_business_tag
business_apart t m =
    each-one_of neither t business_tags
      (unfold each is_credential_tag is_opaque_text_tag is_free_text_tag in refl) m

pub diagnostic_apart :
    (t : ℕ) → one_of t diagnostic ≡ true → (neither t && not (is_business_tag t)) ≡ true
diagnostic_apart t m =
    each-one_of (λ x. neither x && not (is_business_tag x)) t diagnostic
      (unfold each is_credential_tag is_opaque_text_tag is_free_text_tag is_business_tag in refl) m
