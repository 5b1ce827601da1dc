-- ===== src/Redact/Fields.antt =====
-- One round of the loop of `mask_fix_body` (fix_monitor/src/redact.cpp) on a body written from
-- fields.
pub mod Masking
use fix_mon.Prelude.{
  ℕ, zero, suc, ◌+◌, ◌-◌, ◌≤◌, ◌<◌, ◌≡◌, ◌≢◌, refl, sym, ap, ap₂, ◌∙◌, inl, inr, Bool, true, false,
  not, ◌&&◌, ◌||◌, Option, none, some, List, [], ◌∷◌, ◌++◌, append_assoc, append-nil, map, Bytes,
  length, take, drop, get_or, length-append, take-length-append, drop-length-append,
  drop-suc-length-append, ltb, leb, lt→ltb, le→leb, ◌==◌, if◌then◌else◌, Free, arith, Option-cases,
  Bool-cases, eq_text, eq_text_iff,
}
use fix_mon.Body.{Field, encode}
use fix_mon.Redact.Tags.{is_fix_separator, parse_tag}
use fix_mon.Redact.Prose.{index_or_end, settle}
use fix_mon.Redact.Words.{index_or_end-append}
use fix_mon.Redact.MaskBody.{
  ends_tag, tag_at, Expected, announced, separator_end, field_end, mask_value, written_field,
  expect_after, mask_loop, mask_fix_body,
}

-- the tag of a field, 0 where the text is no tag
abbrev pub tag_of : Field → ℕ
tag_of f = elim (parse_tag f.tag) [ none ↦ 0 | some tag ↦ tag ]

-- A value with an announced length may hold any byte; any other holds no separator.
abbrev pub ValueOk : Option ℕ → Bytes → Type 0
ValueOk none v = Free is_fix_separator v
ValueOk (some len) v = length v ≡ len

pub record IsBodyField (expect : Expected) (f : Field) : Type 0 where
  pub tag_free : Free ends_tag f.tag
  pub sep_is : is_fix_separator f.sep ≡ true
  pub value_ok : ValueOk (announced expect (tag_of f)) f.value

-- fields that keep to the lengths announced
abbrev pub WellFormed : Expected → List Field → Type 0
WellFormed expect [] = Unit
WellFormed expect (f ∷ fs) = IsBodyField expect f × WellFormed (expect_after (tag_of f) f.value) fs

-- the bytes of a field without its separator
abbrev body_of : Field → Bytes
body_of f = f.tag ++ (b'=' ∷ f.value)

abbrev label_of : Field → Bytes
label_of f = f.tag ++ (b'=' ∷ [])

get_or-length-append : (xs : Bytes) (c : ℕ) (ys : Bytes) → get_or (xs ++ c ∷ ys) (length xs) 0 ≡ c
get_or-length-append [] c ys = refl
get_or-length-append (x ∷ xs) c ys = get_or-length-append xs c ys

equals_free : is_fix_separator b'=' ≡ false
unfolding is_fix_separator
equals_free = refl

module _ (f : Field) (rest : Bytes) where
  abbrev whole : Bytes
  whole = f.tag ++ (b'=' ∷ (f.value ++ (f.sep ∷ rest)))

  whole_split : whole ≡ body_of f ++ (f.sep ∷ rest)
  whole_split = sym (append_assoc f.tag (b'=' ∷ f.value) (f.sep ∷ rest))

  label_split : whole ≡ label_of f ++ (f.value ++ (f.sep ∷ rest))
  label_split = sym (append_assoc f.tag (b'=' ∷ []) (f.value ++ (f.sep ∷ rest)))

  length-label : length (label_of f) ≡ length f.tag + 1
  length-label = length-append f.tag (b'=' ∷ [])

  length-body : length (body_of f) ≡ length f.tag + 1 + length f.value
  length-body = omega (arith, length-append f.tag (b'=' ∷ f.value))

  tag_end : Free ends_tag f.tag → index_or_end ends_tag whole ≡ length f.tag
  tag_end h = index_or_end-append ends_tag f.tag (b'=' ∷ (f.value ++ (f.sep ∷ rest))) h refl

  tag_inside : ltb (length f.tag) (length whole) ≡ true
  tag_inside =
      lt→ltb (length f.tag) (length whole)
        (omega (arith, length-append f.tag (b'=' ∷ (f.value ++ (f.sep ∷ rest)))))

  tag_at-whole : tag_at whole (length f.tag) ≡ tag_of f
  unfolding tag_at
  tag_at-whole = rw (
    tag_inside,
    get_or-length-append f.tag b'=' (f.value ++ (f.sep ∷ rest)),
    take-length-append f.tag (b'=' ∷ (f.value ++ (f.sep ∷ rest))),
  )

  separator_end-whole :
      Free is_fix_separator f.value
      → is_fix_separator f.sep ≡ true
      → separator_end whole (length f.tag) ≡ length (body_of f)
  unfolding separator_end
  separator_end-whole v s =
      rw
        (
          tag_inside,
          get_or-length-append f.tag b'=' (f.value ++ (f.sep ∷ rest)),
          drop-length-append f.tag (b'=' ∷ (f.value ++ (f.sep ∷ rest))),
          index_or_end-append is_fix_separator (b'=' ∷ f.value) (f.sep ∷ rest) (equals_free, v) s,
          length-body,
        )
        (omega arith)

  field_end-by :
      (expect : Expected) (a : Option ℕ)
      → announced expect (tag_of f) ≡ a
      → is_fix_separator f.sep ≡ true
      → ValueOk a f.value
      → field_end expect whole (length f.tag) ≡ length (body_of f)
  unfolding field_end
  field_end-by expect none e s v = rw (tag_at-whole, e, field_end) (separator_end-whole v s)
  field_end-by expect (some len) e s v =
      rw
        (
          tag_at-whole,
          e,
          field_end,
          le→leb (length f.tag + 1 + len) (length whole) (
              omega (
                arith,
                v,
                length-body,
                length-append (body_of f) (f.sep ∷ rest),
                ap length whole_split,
              )),
          length-body,
        )
        (omega arith)

  field_end-whole :
      (expect : Expected)
      → IsBodyField expect f
      → field_end expect whole (length f.tag) ≡ length (body_of f)
  field_end-whole expect k =
      field_end-by expect (announced expect (tag_of f)) refl k.sep_is k.value_ok

  value-whole :
      take (length (body_of f) - (length f.tag + 1)) (drop (length f.tag + 1) whole) ≡ f.value
  value-whole =
      let n : length (body_of f) - (length f.tag + 1) ≡ length f.value =
        omega (arith, length-body) in
      rw (
        n,
        label_split,
        ← length-label,
        drop-length-append (label_of f) (f.value ++ (f.sep ∷ rest)),
        take-length-append f.value (f.sep ∷ rest),
      )

  body-whole : take (length (body_of f)) whole ≡ body_of f
  body-whole = rw (whole_split, take-length-append (body_of f) (f.sep ∷ rest))

  label-whole : take (length f.tag + 1) whole ≡ label_of f
  label-whole =
      rw (label_split, ← length-label, take-length-append (label_of f) (f.value ++ (f.sep ∷ rest)))

  sep-whole : drop (length (body_of f)) whole ≡ f.sep ∷ rest
  sep-whole = rw (whole_split, drop-length-append (body_of f) (f.sep ∷ rest))

  rest-whole : drop (suc (length (body_of f))) whole ≡ rest
  rest-whole = rw (whole_split, drop-suc-length-append (body_of f) f.sep rest)

-- What one round writes for a field.
abbrev pub written : Bool → Field → Bytes × Bool
written mb f = written_field mb (tag_of f) (body_of f) (label_of f) f.value

mask_loop-ne :
    (mb : Bool) (fuel : ℕ) (rest : Bytes) (expect : Expected) (out : Bytes) (changed : Bool)
    → rest ≢ []
    → mask_loop mb (suc fuel) rest expect out changed ≡ (
        let eq = index_or_end ends_tag rest in
        let end = field_end expect rest eq in
        let value = take (end - (eq + 1)) (drop (eq + 1) rest) in
        let w = written_field mb (tag_at rest eq) (take end rest) (take (eq + 1) rest) value in
        mask_loop mb fuel
          (drop (suc end) rest)
          (expect_after (tag_at rest eq) value)
          ((out ++ w.0) ++ take 1 (drop end rest))
          (changed || w.1))
unfolding mask_loop
mask_loop-ne mb fuel [] expect out changed ne = absurd (ne refl)
mask_loop-ne mb fuel (c ∷ cs) expect out changed ne = refl

whole-ne-nil : (f : Field) (rest : Bytes) → whole f rest ≢ []
whole-ne-nil f rest e =
    omega (arith, ap length e, length-append f.tag (b'=' ∷ (f.value ++ (f.sep ∷ rest))))

-- One round of the loop takes one field.
mask_step :
    (mb : Bool) (fuel : ℕ) (f : Field) (rest : Bytes) (expect : Expected) (out : Bytes)
    (changed : Bool)
    → IsBodyField expect f
    → mask_loop mb (suc fuel) (whole f rest) expect out changed
      ≡ mask_loop mb fuel rest
          (expect_after (tag_of f) f.value)
          ((out ++ (written mb f).0) ++ (f.sep ∷ []))
          (changed || (written mb f).1)
mask_step mb fuel f rest expect out changed k =
    mask_loop-ne mb fuel (whole f rest) expect out changed (whole-ne-nil f rest)
    ∙ rw (
      tag_end f rest k.tag_free,
      field_end-whole f rest expect k,
      tag_at-whole f rest,
      value-whole f rest,
      body-whole f rest,
      label-whole f rest,
      sep-whole f rest,
      rest-whole f rest,
    )
