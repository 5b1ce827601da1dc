-- ===== src/Redact/Spelling.antt =====
-- `is_sensitive_key` of fix_monitor/src/redact.cpp under other spellings of a name.
use fix_mon.Prelude.{
  ◌≡◌, refl, ap, inl, inr, ℕ, suc, Bool, true, false, not, ◌&&◌, ◌||◌, Option, none, some, List, [],
  ◌∷◌, ◌++◌, Bytes, is_empty, eq_text, eq_text_iff, find_text, starts_with, starts_with-append,
  to_lower, arith, Bool-cases,
}
use mathlib.Core.Option
use fix_mon.Redact.Keys.{
  is_some, is_joint, fold, exact_names, fragments, listed, contains, holds, is_sensitive_name,
  is_sensitive_key,
}

-- two spellings of one name: letters in either case, separators put in or left out anywhere
pub data Respelled : Bytes → Bytes → Type 0 where
  nil : Respelled [] []
  letter :
      {c d : ℕ} {a b : Bytes}
      → to_lower c ≡ to_lower d
      → is_joint c ≡ false
      → is_joint d ≡ false
      → Respelled a b
      → Respelled (c ∷ a) (d ∷ b)
  left : {c : ℕ} {a b : Bytes} → is_joint c ≡ true → Respelled a b → Respelled (c ∷ a) b
  right : {c : ℕ} {a b : Bytes} → is_joint c ≡ true → Respelled a b → Respelled a (c ∷ b)

fold-Respelled : {a b : Bytes} → Respelled a b → fold a ≡ fold b
unfolding fold
fold-Respelled nil = refl
fold-Respelled (letter e h k r) = rw (h, k, e, fold-Respelled r)
fold-Respelled (left h r) = rw h (fold-Respelled r)
fold-Respelled (right h r) = rw h (fold-Respelled r)

-- A key is a secret in every spelling or in none.
pub is_sensitive_key-Respelled :
    {a b : Bytes} → Respelled a b → is_sensitive_key a ≡ is_sensitive_key b
unfolding is_sensitive_key
is_sensitive_key-Respelled r = ap is_sensitive_name (fold-Respelled r)

fold-append : (a b : Bytes) → fold (a ++ b) ≡ fold a ++ fold b
unfolding fold
fold-append [] b = refl
fold-append (c ∷ a) b = elim (Bool-cases (is_joint c)) [
  | inl e ↦ rw e (fold-append a b)
  | inr e ↦ rw e (ap (λ l. to_lower c ∷ l) (fold-append a b))
]

find_text-front : (f s : Bytes) → starts_with f s ≡ true → find_text f s ≡ some 0
unfolding find_text
find_text-front f [] h = rw (h, find_text)
find_text-front f (c ∷ s) h = rw (h, find_text)

find_text-later :
    (f : Bytes) (c : ℕ) (s : Bytes)
    → starts_with f (c ∷ s) ≡ false
    → find_text f (c ∷ s) ≡ Option.map suc (find_text f s)
unfolding find_text
find_text-later f c s h = rw (h, find_text)

is_some-map : (o : Option ℕ) → is_some (Option.map suc o) ≡ is_some o
is_some-map none = refl
is_some-map (some i) = refl

contains-cons : (f : Bytes) (c : ℕ) (s : Bytes) → contains s f ≡ true → contains (c ∷ s) f ≡ true
unfolding contains
contains-cons f c s h = elim (Bool-cases (starts_with f (c ∷ s))) [
  | inl e ↦ rw (find_text-front f (c ∷ s) e)
  | inr e ↦ rw (find_text-later f c s e, is_some-map (find_text f s)) h
]

contains-front : (f s : Bytes) → starts_with f s ≡ true → contains s f ≡ true
unfolding contains
contains-front f s h = rw (find_text-front f s h)

contains-infix : (f a b : Bytes) → contains (a ++ (f ++ b)) f ≡ true
contains-infix f [] b = contains-front f (f ++ b) (starts_with-append f b)
contains-infix f (c ∷ a) b = contains-cons f c (a ++ (f ++ b)) (contains-infix f a b)

-- what the table of fragments is checked for
sound : Bytes → Bool
sound f = eq_text (fold f) f && not (is_empty f)

each_sound : List Bytes → Bool
each_sound [] = true
each_sound (f ∷ fs) = sound f && each_sound fs

fragments_sound : each_sound fragments ≡ true
unfolding each_sound sound fold eq_text to_lower
fragments_sound = refl

sound-listed :
    (fs : List Bytes) (f : Bytes) → each_sound fs ≡ true → listed fs f ≡ true → sound f ≡ true
unfolding each_sound listed
sound-listed [] f h m = cc
sound-listed (g ∷ fs) f h m = elim (Bool-cases (eq_text f g)) [
  | inl e ↦ rw ((eq_text_iff f g).0 e) (ground arith)
  | inr e ↦ sound-listed fs f (ground arith) (ground arith)
]

holds-listed :
    (fs : List Bytes) (f k : Bytes) → listed fs f ≡ true → contains k f ≡ true → holds fs k ≡ true
unfolding listed holds
holds-listed [] f k m c = cc
holds-listed (g ∷ fs) f k m c = elim (Bool-cases (eq_text f g)) [
  | inl e ↦ let s = (eq_text_iff f g).0 e in rw (← s, c)
  | inr e ↦ ground (arith, holds-listed fs f k)
]

ne-append : (a f b : Bytes) → is_empty f ≡ false → is_empty (a ++ (f ++ b)) ≡ false
ne-append [] [] b h = cc
ne-append [] (c ∷ f) b h = refl
ne-append (c ∷ a) f b h = refl

sound_ne : (f : Bytes) → sound f ≡ true → is_empty f ≡ false
unfolding sound
sound_ne f h = ground arith

sound-fold : (f : Bytes) → sound f ≡ true → fold f ≡ f
unfolding sound
sound-fold f h = ground (arith, eq_text_iff (fold f) f)

folded :
    (f before word behind : Bytes)
    → sound f ≡ true
    → Respelled word f
    → fold (before ++ (word ++ behind)) ≡ fold before ++ (f ++ fold behind)
folded f before word behind ok r = rw (
  fold-append before (word ++ behind),
  fold-append word behind,
  fold-Respelled r,
  sound-fold f ok,
)

or_true : (b : Bool) → (b || true) ≡ true
or_true true = refl
or_true false = refl

-- A key with a fragment of the table inside, in any spelling, is a secret whatever stands around it.
pub is_sensitive_key-fragment :
    (f before word behind : Bytes)
    → listed fragments f ≡ true
    → Respelled word f
    → is_sensitive_key (before ++ (word ++ behind)) ≡ true
unfolding is_sensitive_key is_sensitive_name
is_sensitive_key-fragment f before word behind m r =
    let ok : sound f ≡ true = sound-listed fragments f fragments_sound m in
    rw
      (
        folded f before word behind ok r,
        ne-append (fold before) f (fold behind) (sound_ne f ok),
        holds-listed fragments f (fold before ++ (f ++ fold behind)) m
            (contains-infix f (fold before) (fold behind)),
      )
      (or_true (listed exact_names (fold before ++ (f ++ fold behind))))
