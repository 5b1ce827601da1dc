-- ===== src/Redact/MaskBody.antt =====
-- `mask_fix_body` of fix_monitor/src/redact.cpp.
use fix_mon.Prelude.{
  ℕ, zero, suc, ◌+◌, ◌-◌, Bool, true, false, not, ◌&&◌, ◌||◌, Option, none, some, [], ◌∷◌, ◌++◌,
  Bytes, length, take, drop, get_or, ltb, leb, ◌==◌, if◌then◌else◌, eq_text,
}
use fix_mon.Redact.Keys.{redacted, masked}
use fix_mon.Redact.Tags.{
  is_fix_separator, is_free_text_tag, is_opaque_text_tag, data_tag_for_length_tag, parse_tag,
  is_credential_tag, is_business_tag,
}
use fix_mon.Redact.Prose.{index_or_end, redact_free_text, settle}

-- a byte that ends the tag
abbrev pub ends_tag : ℕ → Bool
ends_tag c = c == b'=' || is_fix_separator c

-- the tag of the field at the front, 0 where the code has -1 (or 0): `eq` is where its text ends
unfoldable pub tag_at : Bytes → ℕ → ℕ
tag_at rest eq =
    if ltb eq (length rest) && get_or rest eq 0 == b'='
    then elim (parse_tag (take eq rest)) [ none ↦ 0 | some tag ↦ tag ]
    else 0

-- What a length field announces: the tag that must follow, and the length of its value.
abbrev pub Expected : Type 0
Expected = Option (ℕ × ℕ)

unfoldable pub announced : Expected → ℕ → Option ℕ
announced none tag = none
announced (some (want, len)) tag = if ltb 0 tag && tag == want then some len else none

-- where the next separator ends the field: the scan starts at `=`, or at the front without one
unfoldable pub separator_end : Bytes → ℕ → ℕ
separator_end rest eq =
    if ltb eq (length rest) && get_or rest eq 0 == b'='
    then eq + index_or_end is_fix_separator (drop eq rest)
    else index_or_end is_fix_separator rest

unfoldable pub field_end : Expected → Bytes → ℕ → ℕ
field_end expect rest eq = elim (announced expect (tag_at rest eq)) [
  | none ↦ separator_end rest eq
  | some len ↦ if leb (eq + 1 + len) (length rest) then eq + 1 + len else separator_end rest eq
]

-- what is written for a value, and whether that is a change; `none` leaves the field as it is
unfoldable pub mask_value : Bool → ℕ → Bytes → Option (Bytes × Bool)
mask_value mask_business tag value =
    if is_credential_tag tag
    then some (redacted, true)
    else if is_opaque_text_tag tag
    then some (masked, true)
    else if is_free_text_tag tag
    then some (redact_free_text value, not (eq_text (redact_free_text value) value))
    else if mask_business && is_business_tag tag
    then some (masked, true)
    else none

abbrev pub put_value : Bytes → Bytes → Option (Bytes × Bool) → Bytes × Bool
put_value field label none = (field, false)
put_value field label (some (v, changes)) = (label ++ v, changes)

-- the field up to its end, as it is written out
unfoldable pub written_field : Bool → ℕ → Bytes → Bytes → Bytes → Bytes × Bool
written_field mask_business tag field label value =
    if ltb 0 tag && ltb 0 (length value)
    then put_value field label (mask_value mask_business tag value)
    else (field, false)

-- the length that a value declares; `none` unless it is a positive number
unfoldable pub declared : Bytes → Option ℕ
declared value = elim (parse_tag value) [
  | none ↦ none
  | some zero ↦ none
  | some (suc len) ↦ some (suc len)
]

unfoldable pub expect_after : ℕ → Bytes → Expected
expect_after tag value = elim (data_tag_for_length_tag tag) [
  | none ↦ none
  | some want ↦ elim (declared value) [ none ↦ none | some len ↦ some (want, len) ]
]

-- The loop, on fuel; `none` means that the fuel ran out.
unfoldable pub mask_loop : Bool → ℕ → Bytes → Expected → Bytes → Bool → Option (Bytes × Bool)
mask_loop mb zero rest expect out changed = none
mask_loop mb (suc fuel) [] expect out changed = some (out, changed)
mask_loop mb (suc fuel) (c ∷ cs) expect out changed =
    let rest = c ∷ cs in
    let eq = index_or_end ends_tag rest in
    let tag = tag_at rest eq in
    let end = field_end expect rest eq in
    let value = take (end - (eq + 1)) (drop (eq + 1) rest) in
    let w = written_field mb tag (take end rest) (take (eq + 1) rest) value in
    mask_loop mb fuel (drop (suc end) rest) (expect_after tag value)
      ((out ++ w.0) ++ take 1 (drop end rest)) (changed || w.1)

unfoldable pub mask_fix_body : Bytes → Bool → Bytes
mask_fix_body body mask_business =
    settle body (mask_loop mask_business (suc (length body)) body none [] false)
