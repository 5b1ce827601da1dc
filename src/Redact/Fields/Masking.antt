-- ===== src/Redact/Fields/Masking.antt =====
-- `mask_fix_body` of fix_monitor/src/redact.cpp on a body of fields, and its policy tag by tag.
use fix_mon.Prelude.{
  ℕ, zero, suc, ◌<◌, ◌≡◌, ◌≢◌, refl, ap, ap₂, ◌∙◌, inl, inr, ◌⊎◌, Bool, true, false, not, ◌||◌,
  ◌&&◌, Option, none, some, List, [], ◌∷◌, ◌++◌, append_assoc, append-nil, map, Bytes, length,
  length-append, ltb, one_of, if◌then◌else◌, arith, Bool-cases, eq_text_iff,
}
use fix_mon.Body.{Field, encode}
use fix_mon.Redact.Keys.{redacted, masked}
use fix_mon.Redact.Tags.{
  is_credential_tag, is_opaque_text_tag, is_business_tag, diagnostic, credential_pos, opaque_apart,
  business_apart, diagnostic_apart, neither,
}
use fix_mon.Redact.Prose.{redact_free_text}
use fix_mon.Redact.MaskBody.{
  Expected, mask_value, written_field, put_value, expect_after, mask_loop, mask_fix_body,
}
use fix_mon.Redact.Fields.{tag_of, body_of, label_of, WellFormed, written, mask_step, whole}

-- whether the field has a tag and a value, so that masking looks at it
abbrev pub looked_at : Field → Bool
looked_at f = ltb 0 (tag_of f) && ltb 0 (length f.value)

abbrev replaced : Bytes → Option (Bytes × Bool) → Bytes
replaced v none = v
replaced v (some (w, _)) = w

abbrev changed_by : Option (Bytes × Bool) → Bool
changed_by none = false
changed_by (some (_, b)) = b

-- the field with its value masked, its tag and separator kept
unfoldable pub masked_field : Bool → Field → Field
masked_field mb f = record f {
  value = if looked_at f then replaced f.value (mask_value mb (tag_of f) f.value) else f.value;
}

changes : Bool → List Field → Bool
changes mb [] = false
changes mb (f ∷ fs) = (written mb f).1 || changes mb fs

put_value_lem :
    (f : Field) (m : Option (Bytes × Bool))
    → put_value (body_of f) (label_of f) m ≡ (f.tag ++ (b'=' ∷ replaced f.value m), changed_by m)
put_value_lem f none = refl
put_value_lem f (some (v, c)) = ap (λ (b : Bytes). (b, c)) (append_assoc f.tag (b'=' ∷ []) v)

written_lem : (mb : Bool) (f : Field) → (written mb f).0 ≡ body_of (masked_field mb f)
unfolding masked_field written_field
written_lem mb f = elim (Bool-cases (looked_at f)) [
  | inl e ↦
      rw (e) (ap (λ (p : Bytes × Bool). p.0) (put_value_lem f (mask_value mb (tag_of f) f.value)))
  | inr e ↦ rw (e)
]

changed_lem :
    (mb : Bool) (f : Field)
    → (written mb f).1
      ≡ (if looked_at f then changed_by (mask_value mb (tag_of f) f.value) else false)
unfolding written_field
changed_lem mb f = elim (Bool-cases (looked_at f)) [
  | inl e ↦
      rw (e) (ap (λ (p : Bytes × Bool). p.1) (put_value_lem f (mask_value mb (tag_of f) f.value)))
  | inr e ↦ rw (e)
]

-- A value that is not reported as changed is the value itself.
replaced_same :
    (mb : Bool) (tag : ℕ) (v : Bytes)
    → changed_by (mask_value mb tag v) ≡ false
    → replaced v (mask_value mb tag v) ≡ v
unfolding mask_value
replaced_same mb tag v h = ground (arith, eq_text_iff (redact_free_text v) v)

masked_same : (mb : Bool) (f : Field) → (written mb f).1 ≡ false → masked_field mb f ≡ f
unfolding masked_field
masked_same mb f h =
    ap (λ (v : Bytes). record f { value = v })
      (elim (Bool-cases (looked_at f)) [
        | inl e ↦ rw e (replaced_same mb (tag_of f) f.value (rw (changed_lem mb f, e) at h))
        | inr e ↦ rw e
      ])

or_assoc : (a b c : Bool) → ((a || b) || c) ≡ (a || (b || c))
or_assoc true b c = refl
or_assoc false b c = refl

regroup :
    (out t v : Bytes) (sep : ℕ) (xs : Bytes)
    → (((out ++ (t ++ (b'=' ∷ v))) ++ (sep ∷ [])) ++ xs) ≡ out ++ (t ++ (b'=' ∷ (v ++ (sep ∷ xs))))
regroup out t v sep xs = simp append_assoc

join_written :
    (mb : Bool) (f : Field) (out xs : Bytes)
    → (((out ++ (written mb f).0) ++ (f.sep ∷ [])) ++ xs) ≡ out ++ whole (masked_field mb f) xs
join_written mb f out xs =
    ap (λ (w : Bytes). ((out ++ w) ++ (f.sep ∷ [])) ++ xs) (written_lem mb f)
    ∙ unfold masked_field in regroup out f.tag (masked_field mb f).value f.sep xs

mask_loop-encode :
    (mb : Bool) (fs : List Field) (fuel : ℕ) (expect : Expected) (out : Bytes) (changed : Bool)
    → WellFormed expect fs
    → length (encode fs) < fuel
    → mask_loop mb fuel (encode fs) expect out changed
      ≡ some (out ++ encode (map (masked_field mb) fs), changed || changes mb fs)
unfolding changes
mask_loop-encode mb fs zero expect out changed k h = elim h [ ]
mask_loop-encode mb [] (suc fuel) expect out true k h = unfold mask_loop in rw append-nil
mask_loop-encode mb [] (suc fuel) expect out false k h = unfold mask_loop in rw append-nil
mask_loop-encode mb (f ∷ fs) (suc fuel) expect out changed (k, more) h =
    mask_step mb fuel f (encode fs) expect out changed k
    ∙ mask_loop-encode mb fs fuel (expect_after (tag_of f) f.value)
        ((out ++ (written mb f).0) ++ (f.sep ∷ [])) (changed || (written mb f).1) more
        (omega (
          arith,
          length-append f.tag (b'=' ∷ (f.value ++ (f.sep ∷ encode fs))),
          length-append f.value (f.sep ∷ encode fs),
        ))
    ∙ ap₂ (λ (o : Bytes) (b : Bool). some (o, b))
        (join_written mb f out (encode (map (masked_field mb) fs)))
        (or_assoc changed (written mb f).1 (changes mb fs))

all_same : (mb : Bool) (fs : List Field) → changes mb fs ≡ false → map (masked_field mb) fs ≡ fs
unfolding changes
all_same mb [] h = refl
all_same mb (f ∷ fs) h =
    ap₂ (λ x xs. x ∷ xs) (masked_same mb f (ground arith)) (all_same mb fs (ground arith))

-- A body written from fields that keep to the lengths they announce comes back as the same fields
-- in the same order, each tag and separator in its place, with each value masked by its tag alone.
-- A value of announced length is masked whole, the separators inside it included.
pub mask_fix_body-encode :
    (mb : Bool) (fs : List Field)
    → WellFormed none fs
    → mask_fix_body (encode fs) mb ≡ encode (map (masked_field mb) fs)
unfolding mask_fix_body
mask_fix_body-encode mb fs k =
    rw (mask_loop-encode mb fs (suc (length (encode fs))) none [] false k (omega arith))
      (elim (Bool-cases (changes mb fs)) [ inl e ↦ rw e | inr e ↦ rw (e, all_same mb fs e) ])

value_pos : (v : Bytes) → v ≢ [] → ltb 0 (length v) ≡ true
value_pos [] ne = absurd (ne refl)
value_pos (c ∷ v) ne = ground arith

module _ (mb : Bool) (t : ℕ) (v : Bytes) (held : ltb 0 (length v) ≡ true) where
  abbrev outcome : Bytes
  outcome = if ltb 0 t && ltb 0 (length v) then replaced v (mask_value mb t v) else v

  credential_outcome : is_credential_tag t ≡ true → outcome ≡ redacted
  credential_outcome h = unfold mask_value in rw (credential_pos t h, held, h)

  opaque_outcome : is_opaque_text_tag t ≡ true → outcome ≡ masked
  opaque_outcome h = unfold mask_value in ground (arith, opaque_apart t h)

  diagnostic-outcome : one_of t diagnostic ≡ true → outcome ≡ v
  diagnostic-outcome h = by_apart (diagnostic_apart t h)
    where
      by_apart : (neither t && not (is_business_tag t)) ≡ true → outcome ≡ v
      by_apart a = unfold mask_value in ground arith

  business_outcome : is_business_tag t ≡ true → outcome ≡ (if mb then masked else v)
  business_outcome h = unfold mask_value in ground (arith, business_apart t h)

unless {ℓ} : {P : Type ℓ} (b : Bool) → (b ≡ true → P) → (b ≡ false) ⊎ P
unless true h = inr (h refl)
unless false h = inl refl

-- Whatever the policy, a login field that holds anything holds <redacted> afterwards, an encoded
-- text holds <masked>, and a diagnostic field keeps its value; a business field holds <masked>
-- if bodies are masked, and keeps its value if not.
pub masked_field_policy :
    (mb : Bool) (f : Field)
    → f.value ≢ []
    → ((is_credential_tag (tag_of f) ≡ false) ⊎ ((masked_field mb f).value ≡ redacted))
      × ((is_opaque_text_tag (tag_of f) ≡ false) ⊎ ((masked_field mb f).value ≡ masked))
      × ((one_of (tag_of f) diagnostic ≡ false) ⊎ (masked_field mb f ≡ f))
      × ((is_business_tag (tag_of f) ≡ false)
          ⊎ ((masked_field mb f).value ≡ (if mb then masked else f.value)))
unfolding masked_field
masked_field_policy mb f ne =
    let held = value_pos f.value ne in
    (
      unless (is_credential_tag (tag_of f)) (credential_outcome mb (tag_of f) f.value held),
      unless (is_opaque_text_tag (tag_of f)) (opaque_outcome mb (tag_of f) f.value held),
      unless (one_of (tag_of f) diagnostic) (λ h.
          ap (λ (v : Bytes). record f { value = v })
            (diagnostic-outcome mb (tag_of f) f.value held h)),
      unless (is_business_tag (tag_of f)) (business_outcome mb (tag_of f) f.value held),
    )
