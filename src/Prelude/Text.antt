-- ===== src/Prelude/Text.antt =====
-- Byte strings: `std::string` and `std::string_view` as lists of byte values.
use Prim.Native.Nat.{ℕ, zero, suc, ◌+◌, ◌<◌}
use Prim.Native.Char.{code}
use Prim.Native.String.{String}
use mathlib.Core.Path.{◌≡◌, refl}
use mathlib.Core.Logic.{◌↔◌, inl, inr}
use mathlib.Core.Bool.{Bool, true, false, not, ◌&&◌, ◌||◌}
use mathlib.Core.Option
use mathlib.Core.Option.{Option, none, some}
use mathlib.Core.List.{List, [], ◌∷◌, ◌++◌}
use native.Mathlib.Omega.{arith}
use fix_mon.Prelude.Tests.{leb, ◌==◌, if◌then◌else◌, Option-cases, ==_iff}
use fix_mon.Prelude.Lists.{length, take, get_or}

abbrev pub Bytes : Type 0
Bytes = List ℕ

-- the bytes of an ASCII literal; `String` has its own `[]` and `∷`
abbrev pub codes : String → Bytes
codes String.[] = []
codes (String.◌∷◌ c s) = code c ∷ codes s

-- `==` on strings
unfoldable pub eq_text : Bytes → Bytes → Bool
eq_text [] [] = true
eq_text (x ∷ xs) (y ∷ ys) = x == y && eq_text xs ys
eq_text _ _ = false

pub eq_text_iff : (a b : Bytes) → (eq_text a b ≡ true) ↔ (a ≡ b)
unfolding eq_text
eq_text_iff (x ∷ a) (y ∷ b) = ground (arith, eq_text_iff a b)
eq_text_iff _ _ = ground arith

pub eq_text_refl : (a : Bytes) → eq_text a a ≡ true
eq_text_refl a = (eq_text_iff a a).1 refl

-- `find(c)`: the offset of the first byte that passes the test
unfoldable pub find_index : (ℕ → Bool) → Bytes → Option ℕ
find_index p [] = none
find_index p (c ∷ cs) = if p c then some 0 else Option.map suc (find_index p cs)

unfoldable pub starts_with : Bytes → Bytes → Bool
starts_with [] s = true
starts_with (p ∷ ps) [] = false
starts_with (p ∷ ps) (c ∷ cs) = p == c && starts_with ps cs

-- `find(needle)`
unfoldable pub find_text : Bytes → Bytes → Option ℕ
unfolding starts_with
find_text n [] = if starts_with n [] then some 0 else none
find_text n (c ∷ cs) = if starts_with n (c ∷ cs) then some 0 else Option.map suc (find_text n cs)

-- drops the leading bytes that pass the test
unfoldable pub drop_while : (ℕ → Bool) → Bytes → Bytes
drop_while p [] = []
drop_while p (c ∷ cs) = if p c then drop_while p cs else c ∷ cs

abbrev trim_cons : ℕ → Bytes → Bool → Bytes
trim_cons c [] drop? = if drop? then [] else c ∷ []
trim_cons c (x ∷ xs) drop? = c ∷ x ∷ xs

-- drops the trailing bytes that pass the test
unfoldable pub drop_while_end : (ℕ → Bool) → Bytes → Bytes
drop_while_end p [] = []
drop_while_end p (c ∷ cs) = trim_cons c (drop_while_end p cs) (p c)

unfoldable pub is_digit : ℕ → Bool
is_digit c = leb b'0' c && leb c b'9'

-- `std::tolower` in the C locale
unfoldable pub to_lower : ℕ → ℕ
to_lower c = if leb b'A' c && leb c b'Z' then c + 32 else c

-- `std::isalnum` in the C locale
unfoldable pub is_alnum : ℕ → Bool
unfolding is_digit
is_alnum c = is_digit c || leb b'a' c && leb c b'z' || leb b'A' c && leb c b'Z'

-- no byte passes the test
abbrev pub Free : (ℕ → Bool) → Bytes → Type 0
Free p [] = Unit
Free p (c ∷ cs) = (p c ≡ false) × Free p cs

pub Free-append : (p : ℕ → Bool) (xs ys : Bytes) → Free p xs → Free p ys → Free p (xs ++ ys)
Free-append p [] ys f g = g
Free-append p (x ∷ xs) ys f g = (f.0, Free-append p xs ys f.1 g)

pub find_index-append :
    (p : ℕ → Bool) (xs : Bytes) (c : ℕ) (ys : Bytes)
    → Free p xs
    → p c ≡ true
    → find_index p (xs ++ c ∷ ys) ≡ some (length xs)
unfolding find_index
find_index-append p [] c ys h e = rw e
find_index-append p (x ∷ xs) c ys h e = rw (h.0, find_index-append p xs c ys h.1 e)

pub find_index-Free : (p : ℕ → Bool) (xs : Bytes) → Free p xs → find_index p xs ≡ none
unfolding find_index
find_index-Free p [] h = refl
find_index-Free p (x ∷ xs) h = rw (h.0, find_index-Free p xs h.1)

pub Free-find_index : (p : ℕ → Bool) (xs : Bytes) → find_index p xs ≡ none → Free p xs
unfolding find_index
Free-find_index p [] e = tt
Free-find_index p (x ∷ xs) e = elim (Option-cases (find_index p xs)) [
  | inl n ↦ (ground arith, Free-find_index p xs n)
  | inr (i, h) ↦ ground arith
]

pub find_index-lt : (p : ℕ → Bool) (xs : Bytes) {i : ℕ} → find_index p xs ≡ some i → i < length xs
unfolding find_index
find_index-lt p [] e = cc
find_index-lt p (x ∷ xs) {i} e = elim (Option-cases (find_index p xs)) [
  | inl n ↦ ground arith
  | inr (j, s) ↦ ground (arith, find_index-lt p xs s)
]

pub drop_while_end-Free : (p : ℕ → Bool) (xs : Bytes) → Free p xs → drop_while_end p xs ≡ xs
unfolding drop_while_end
drop_while_end-Free p [] h = refl
drop_while_end-Free p (c ∷ []) h = rw h.0
drop_while_end-Free p (c ∷ (x ∷ xs)) h = rw (drop_while_end-Free p (x ∷ xs) h.1, drop_while_end)

Free-trim_cons :
    (q : ℕ → Bool) (c : ℕ) (r : Bytes) (b : Bool)
    → q c ≡ false
    → Free q r
    → Free q (trim_cons c r b)
Free-trim_cons q c [] true e f = tt
Free-trim_cons q c [] false e f = (e, tt)
Free-trim_cons q c (x ∷ xs) b e f = (e, f)

-- trimming the end keeps any byte condition
pub Free-drop_while_end : (q p : ℕ → Bool) (xs : Bytes) → Free q xs → Free q (drop_while_end p xs)
unfolding drop_while_end
Free-drop_while_end q p [] h = tt
Free-drop_while_end q p (c ∷ cs) h =
    Free-trim_cons q c (drop_while_end p cs) (p c) h.0 (Free-drop_while_end q p cs h.1)

pub Free-get_or :
    (p : ℕ → Bool) (xs : Bytes) (i d : ℕ) → Free p xs → p d ≡ false → p (get_or xs i d) ≡ false
Free-get_or p [] i d h e = e
Free-get_or p (x ∷ xs) zero d h e = h.0
Free-get_or p (x ∷ xs) (suc i) d h e = Free-get_or p xs i d h.1 e

pub Free-take-find_index :
    (p : ℕ → Bool) (xs : Bytes) {i : ℕ} → find_index p xs ≡ some i → Free p (take i xs)
unfolding find_index
Free-take-find_index p [] e = absurd cc
Free-take-find_index p (x ∷ xs) {i = zero} e = tt
Free-take-find_index p (x ∷ xs) {i = suc i} e = elim (Option-cases (find_index p xs)) [
  | inl n ↦ absurd (ground arith)
  | inr (j, s) ↦ (ground arith, Free-take-find_index p xs (ground arith))
]

pub starts_with-append : (n ys : Bytes) → starts_with n (n ++ ys) ≡ true
unfolding starts_with
starts_with-append [] ys = refl
starts_with-append (x ∷ n) ys = rw ((==_iff x x).1 refl, starts_with-append n ys)

-- A text whose first byte does not occur before it is found where it stands.
pub find_text-append :
    (n : Bytes) (c : ℕ) (xs ys : Bytes)
    → Free (λ d. c == d) xs
    → find_text (c ∷ n) (xs ++ ((c ∷ n) ++ ys)) ≡ some (length xs)
unfolding find_text
find_text-append n c [] ys h = rw ((==_iff c c).1 refl, starts_with-append n ys)
find_text-append n c (x ∷ xs) ys h = rw (h.0, find_text-append n c xs ys h.1)

trim_cons-append :
    (x : ℕ) (xs : Bytes) (c : ℕ) (ys : Bytes) (b : Bool)
    → trim_cons x (xs ++ c ∷ ys) b ≡ x ∷ (xs ++ c ∷ ys)
trim_cons-append x [] c ys b = refl
trim_cons-append x (y ∷ xs) c ys b = refl

trim_cons_keep : (c : ℕ) (r : Bytes) → trim_cons c r false ≡ c ∷ r
trim_cons_keep c [] = refl
trim_cons_keep c (x ∷ xs) = refl

not-false : (b : Bool) → not b ≡ false → b ≡ true
not-false true e = refl
not-false false e = cc

-- trimming the end stops at a byte that stays
pub drop_while_end-append :
    (p : ℕ → Bool) (xs : Bytes) (c : ℕ) (ys : Bytes)
    → p c ≡ false
    → drop_while_end p (xs ++ c ∷ ys) ≡ xs ++ c ∷ drop_while_end p ys
unfolding drop_while_end
drop_while_end-append p [] c ys h = rw (h, trim_cons_keep c (drop_while_end p ys))
drop_while_end-append p (x ∷ xs) c ys h =
    rw (drop_while_end-append p xs c ys h, trim_cons-append x xs c (drop_while_end p ys) (p x))

pub drop_while-append :
    (p : ℕ → Bool) (xs : Bytes) (c : ℕ) (ys : Bytes)
    → Free (λ d. not (p d)) xs
    → p c ≡ false
    → drop_while p (xs ++ c ∷ ys) ≡ c ∷ ys
unfolding drop_while
drop_while-append p [] c ys a h = rw h
drop_while-append p (x ∷ xs) c ys a h = rw (not-false (p x) a.0) (drop_while-append p xs c ys a.1 h)
