-- ===== src/FixParser/Fields.antt =====
-- `parse_fix_fields` of fix_monitor/src/fix_parser.cpp: its loop, and bodies written from fields.
use fix_mon.Prelude.{
  ℕ, zero, suc, ◌<◌, ℤ, pos, negsuc, ◌≡◌, refl, sym, ◌∙◌, inl, inr, Bool, true, false, not, ◌||◌,
  Option, none, some, List, [], ◌∷◌, ◌++◌, All, Bytes, length, take, drop, length-drop, is_empty,
  length-append, take-length-append, drop-suc-length-append, ◌==◌, if◌then◌else◌, Option-cases,
  find_index, find_index-lt, find_index-append, arith,
}
use fix_mon.Body.{Field, IsField, encode}
use fix_mon.FixParser.{
  is_separator, to_int, TagMap, find, emplace, Scan, skip_field, take_value, scan_at, next_field,
  parse_loop, parse_fix_fields,
}

-- what is left for the next round is shorter
abbrev Shrinks : ℕ → Scan → Type 0
Shrinks n Scan.finished = Unit
Shrinks n (Scan.skipped r) = length r < n
Shrinks n (Scan.field tag v r) = length r < n
Shrinks n (Scan.last_field tag v) = Unit

skip_field-Shrinks : (rest : Bytes) → Shrinks (length rest) (skip_field rest)
unfolding skip_field
skip_field-Shrinks rest = elim (Option-cases (find_index is_separator rest)) [
  | inl e ↦ rw (e, Shrinks) tt
  | inr (i, e) ↦
      rw (e, Shrinks) (omega (arith, find_index-lt is_separator rest e, length-drop (suc i) rest))
]

take_value-Shrinks : (n tag : ℕ) (v : Bytes) → length v < n → Shrinks n (take_value tag v)
unfolding take_value
take_value-Shrinks n tag v h = elim (Option-cases (find_index is_separator v)) [
  | inl e ↦ rw (e, Shrinks) tt
  | inr (i, e) ↦ rw (e, Shrinks) (omega (arith, length-drop (suc i) v))
]

scan_at-Shrinks :
    (rest : Bytes) (eq : ℕ) → eq < length rest → Shrinks (length rest) (scan_at rest eq)
unfolding scan_at
scan_at-Shrinks rest eq h = go (to_int (take eq rest)) refl
  where
    go : (z : ℤ) → to_int (take eq rest) ≡ z → Shrinks (length rest) (scan_at rest eq)
    go (pos tag) e =
        rw (e, Shrinks, scan_at)
          (take_value-Shrinks (length rest) tag (drop (suc eq) rest)
            (omega (arith, length-drop (suc eq) rest)))
    go (negsuc n) e = rw (e, Shrinks, scan_at) (skip_field-Shrinks rest)

next_field-Shrinks : (rest : Bytes) → Shrinks (length rest) (next_field rest)
unfolding next_field
next_field-Shrinks rest = elim (Option-cases (find_index (λ c. c == b'=') rest)) [
  | inl e ↦ rw (e, Shrinks) tt
  | inr (i, e) ↦ rw (e, Shrinks) (scan_at-Shrinks rest i (find_index-lt _ rest e))
]

parse_loop_total :
    (fuel : ℕ) (rest : Bytes) (out : TagMap) (found : Bool)
    → length rest < fuel
    → (r : Bool × TagMap) × (parse_loop fuel rest out found ≡ some r)
unfolding parse_loop
parse_loop_total zero rest out found h = elim h [ ]
parse_loop_total (suc fuel) rest out found h =
    go (next_field rest) (next_field-Shrinks rest) refl (λ r o b. parse_loop_total fuel r o b)
  where
    go :
        (s : Scan)
        → Shrinks (length rest) s
        → next_field rest ≡ s
        → ((r : Bytes) (o : TagMap) (b : Bool)
            → length r < fuel
            → (x : Bool × TagMap) × (parse_loop fuel r o b ≡ some x))
        → (r : Bool × TagMap) × (parse_loop (suc fuel) rest out found ≡ some r)
    go Scan.finished k e ih = ((found, out), rw (e, parse_loop))
    go (Scan.skipped r) k e ih = rw (e, parse_loop) (ih r out found (omega arith))
    go (Scan.field tag v r) k e ih =
        rw (e, parse_loop) (ih r (emplace tag v out) true (omega arith))
    go (Scan.last_field tag v) k e ih = ((true, emplace tag v out), rw (e, parse_loop))

-- The fuel that `parse_fix_fields` gives its loop is enough for every body: the loop ends by
-- itself, with the result that is returned.
pub parse_fix_fields_total :
    (body : Bytes) → parse_loop (suc (length body)) body [] false ≡ some (parse_fix_fields body)
unfolding parse_fix_fields
parse_fix_fields_total body =
    let (r, e) = parse_loop_total (suc (length body)) body [] false (omega arith) in rw e

-- a field with a tag that the parser accepts
pub record IsParsed (f : Field) : Type 0 where
  pub field : IsField is_separator f
  pub number : ℕ
  pub number_is : to_int f.tag ≡ pos number

-- the value of the first field with the tag
abbrev pub first_value : ℕ → List Field → Option Bytes
first_value k [] = none
first_value k (f ∷ fs) = elim (to_int f.tag) [
  | pos n ↦ if n == k then some f.value else first_value k fs
  | negsuc _ ↦ first_value k fs
]

emplace_field : Field → TagMap → TagMap
emplace_field f out = elim (to_int f.tag) [ pos n ↦ emplace n f.value out | negsuc _ ↦ out ]

emplace_all : List Field → TagMap → TagMap
emplace_all [] out = out
emplace_all (f ∷ fs) out = emplace_all fs (emplace_field f out)

scan_at-encode :
    (f : Field) (fs : List Field) (p : IsParsed f)
    → scan_at (encode (f ∷ fs)) (length f.tag)
      ≡ take_value p.number (f.value ++ (f.sep ∷ encode fs))
scan_at-encode f fs p =
    unfold scan_at in rw (take-length-append, p.number_is, scan_at, drop-suc-length-append)

take_value-encode :
    (f : Field) (fs : List Field) (n : ℕ)
    → IsField is_separator f
    → take_value n (f.value ++ (f.sep ∷ encode fs)) ≡ Scan.field n f.value (encode fs)
take_value-encode f fs n w =
    unfold take_value in
    rw (
      find_index-append is_separator f.value f.sep (encode fs) w.value_free w.sep_is,
      take_value,
      take-length-append,
      drop-suc-length-append,
    )

next_field-encode :
    (f : Field) (fs : List Field) (p : IsParsed f)
    → next_field (encode (f ∷ fs)) ≡ Scan.field p.number f.value (encode fs)
unfolding next_field
next_field-encode f fs p =
    rw
      (
        find_index-append (λ c. c == b'=') f.tag b'=' (f.value ++ (f.sep ∷ encode fs))
            p.field.tag_free refl,
        next_field,
      )
      (scan_at-encode f fs p ∙ take_value-encode f fs p.number p.field)

emplace_field-number :
    (f : Field) (p : IsParsed f) (out : TagMap) → emplace_field f out ≡ emplace p.number f.value out
unfolding emplace_field
emplace_field-number f p out = rw (p.number_is, emplace_field)

length-encode-lt : (f : Field) (fs : List Field) → length (encode fs) < length (encode (f ∷ fs))
length-encode-lt f fs = omega (
  arith,
  length-append f.tag (b'=' ∷ (f.value ++ (f.sep ∷ encode fs))),
  length-append f.value (f.sep ∷ encode fs),
)

or_true : (b : Bool) → (b || true) ≡ true
or_true true = refl
or_true false = refl

parse_loop-nil :
    (fuel : ℕ) (out : TagMap) (found : Bool)
    → parse_loop (suc fuel) [] out found ≡ some (found, out)
unfolding parse_loop next_field find_index
parse_loop-nil fuel out found = refl

parse_loop-encode :
    (fs : List Field) (fuel : ℕ) (out : TagMap) (found : Bool)
    → length (encode fs) < fuel
    → All IsParsed fs
    → parse_loop fuel (encode fs) out found ≡ some (found || not (is_empty fs), emplace_all fs out)
unfolding parse_loop emplace_all
parse_loop-encode fs zero out found h w = elim h [ ]
parse_loop-encode [] (suc fuel) out true h w = parse_loop-nil fuel out true
parse_loop-encode [] (suc fuel) out false h w = parse_loop-nil fuel out false
parse_loop-encode (f ∷ fs) (suc fuel) out found h w =
    rw (next_field-encode f fs w.0, parse_loop)
      (parse_loop-encode fs fuel (emplace w.0.number f.value out) true
          (omega (arith, length-encode-lt f fs)) w.1
        ∙ rw (or_true found, emplace_field-number f w.0))

-- the first of two optional values
abbrev or_else : Option Bytes → Option Bytes → Option Bytes
or_else none b = b
or_else (some a) b = some a

or_else_assoc : (a b c : Option Bytes) → or_else (or_else a b) c ≡ or_else a (or_else b c)
or_else_assoc none b c = refl
or_else_assoc (some a) b c = refl

find-emplace :
    (k j : ℕ) (v : Bytes) (m : TagMap)
    → find k (emplace j v m) ≡ or_else (find k m) (if j == k then some v else none)
unfolding find emplace
find-emplace k j v [] = refl
find-emplace k j v ((i, w) ∷ m) = ground (arith, find-emplace k j v m)

or_else_none : (a : Option Bytes) → or_else a none ≡ a
or_else_none none = refl
or_else_none (some a) = refl

if_or_else :
    (b : Bool) (v : Bytes) (r : Option Bytes)
    → (if b then some v else r) ≡ or_else (if b then some v else none) r
if_or_else true v r = refl
if_or_else false v r = refl

first_value-cons :
    (k : ℕ) (f : Field) (fs : List Field) (p : IsParsed f)
    → first_value k (f ∷ fs)
      ≡ or_else (if p.number == k then some f.value else none) (first_value k fs)
first_value-cons k f fs p =
    rw (p.number_is, first_value) (if_or_else (p.number == k) f.value (first_value k fs))

find-emplace_all :
    (k : ℕ) (fs : List Field) (out : TagMap)
    → All IsParsed fs
    → find k (emplace_all fs out) ≡ or_else (find k out) (first_value k fs)
unfolding emplace_all
find-emplace_all k [] out w = sym (or_else_none (find k out))
find-emplace_all k (f ∷ fs) out w =
    find-emplace_all k fs (emplace_field f out) w.1
    ∙ rw (emplace_field-number f w.0, find-emplace, first_value-cons k f fs w.0, or_else_assoc)

-- A body written from fields whose tags are numbers and whose values hold no separator is read
-- back: the parser reports a field exactly if there is one, and each tag is found with the value
-- of the first field that carries it.
pub parse_fix_fields-encode :
    (fs : List Field)
    → All IsParsed fs
    → ((parse_fix_fields (encode fs)).0 ≡ not (is_empty fs))
      × ((k : ℕ) → find k (parse_fix_fields (encode fs)).1 ≡ first_value k fs)
unfolding parse_fix_fields
parse_fix_fields-encode fs w =
    let e = parse_loop-encode fs (suc (length (encode fs))) [] false (omega arith) w in
    (rw e, λ k. rw e (unfold find in find-emplace_all k fs [] w))
