-- ===== src/Prelude/Digits.antt =====
-- The digits that `std::to_string` writes, read back by `std::stoul`.
use Prim.Native.Nat.{ℕ, zero, suc, ◌+◌, ◌/◌, ◌%◌, ◌^◌, ◌<◌}
use mathlib.Core.Path.{◌≡◌, refl, ap, ◌∙◌}
use mathlib.Core.Logic.{inl, inr}
use mathlib.Core.Bool.{Bool, true, false}
use mathlib.Core.Option.{some}
use mathlib.Core.List.{[], ◌∷◌}
use native.Mathlib.Omega.{arith}
use fix_mon.Prelude.Tests.{ltb, ◌==◌, Bool-cases, ltb→lt}
use fix_mon.Prelude.Text.{Bytes, is_digit, drop_while, Free}
use fix_mon.Prelude.Numbers.{digits_onto, digits_value, to_string, stoul, in_ulong, is_space_char}

pub digit-is_digit : (n : ℕ) → n < 10 → is_digit (48 + n) ≡ true
unfolding is_digit
digit-is_digit n h = ground arith

digits_value-digits_onto :
    (fuel n : ℕ) (acc : Bytes)
    → n < fuel
    → digits_value 0 (digits_onto fuel n acc) ≡ digits_value n acc
unfolding digits_value
digits_value-digits_onto zero n acc h = absurd (omega arith)
digits_value-digits_onto (suc fuel) n acc h = elim (Bool-cases (ltb n 10)) [
  | inl e ↦
      rw (e, digits_value, digit-is_digit n (ltb→lt n 10 e))
        (ap (λ v. digits_value v acc) (omega arith))
  | inr e ↦
      rw
        (
          e,
          digits_value-digits_onto fuel (n / 10) ((48 + n % 10) ∷ acc) (ground arith),
          digits_value,
          digit-is_digit (n % 10) (omega arith),
        )
        (ap (λ v. digits_value v acc) (omega arith))
]

-- every byte is a digit
abbrev pub Digits : Bytes → Type 0
Digits [] = Unit
Digits (c ∷ cs) = (is_digit c ≡ true) × Digits cs

-- digits, one at least
abbrev pub IsNumber : Bytes → Type 0
IsNumber [] = ⊥
IsNumber (c ∷ cs) = Digits (c ∷ cs)

digits_onto-IsNumber :
    (fuel n : ℕ) (acc : Bytes) → n < fuel → Digits acc → IsNumber (digits_onto fuel n acc)
digits_onto-IsNumber zero n acc h d = absurd (omega arith)
digits_onto-IsNumber (suc fuel) n acc h d = elim (Bool-cases (ltb n 10)) [
  | inl e ↦ rw (digits_onto, e) (digit-is_digit n (ltb→lt n 10 e), d)
  | inr e ↦
      rw (digits_onto, e)
        (digits_onto-IsNumber fuel (n / 10) ((48 + n % 10) ∷ acc) (ground arith)
          (digit-is_digit (n % 10) (omega arith), d))
]

pub to_string-IsNumber : (n : ℕ) → IsNumber (to_string n)
unfolding to_string
to_string-IsNumber n = digits_onto-IsNumber (suc n) n [] (omega arith) tt

pub digits_value-to_string : (n : ℕ) → digits_value 0 (to_string n) ≡ n
unfolding to_string digits_value
digits_value-to_string n = digits_value-digits_onto (suc n) n [] (omega arith)

pub Digits-Free :
    (p : ℕ → Bool) (s : Bytes) → ((c : ℕ) → is_digit c ≡ true → p c ≡ false) → Digits s → Free p s
Digits-Free p [] h d = tt
Digits-Free p (c ∷ cs) h d = (h c d.0, Digits-Free p cs h d.1)

not_space : (c : ℕ) → is_digit c ≡ true → is_space_char c ≡ false
unfolding is_space_char is_digit
not_space c d = ground arith

pub not_byte : (b c : ℕ) → is_digit c ≡ true → is_digit b ≡ false → (c == b) ≡ false
unfolding is_digit
not_byte b c d n = ground arith

stoul_digits : (s : Bytes) → IsNumber s → stoul s ≡ in_ulong false (digits_value 0 s)
unfolding stoul drop_while
stoul_digits [] d = elim d [ ]
stoul_digits (c ∷ cs) d =
    rw (not_space c d.0, not_byte b'-' c d.0 refl, not_byte b'+' c d.0 refl, d.0)

in_ulong_small : (n : ℕ) → n < 2 ^ 64 → in_ulong false n ≡ some n
unfolding in_ulong
in_ulong_small n h = ground arith

-- `std::stoul` reads back what `std::to_string` wrote
pub stoul-to_string : (n : ℕ) → n < 2 ^ 64 → stoul (to_string n) ≡ some n
stoul-to_string n h =
    stoul_digits (to_string n) (to_string-IsNumber n)
    ∙ ap (in_ulong false) (digits_value-to_string n)
    ∙ in_ulong_small n h

IsNumber-Digits : (s : Bytes) → IsNumber s → Digits s
IsNumber-Digits [] d = tt
IsNumber-Digits (c ∷ cs) d = d

-- a byte that is no digit does not stand in a number
pub Free-to_string :
    (p : ℕ → Bool) (n : ℕ) → ((c : ℕ) → is_digit c ≡ true → p c ≡ false) → Free p (to_string n)
Free-to_string p n h =
    Digits-Free p (to_string n) h (IsNumber-Digits (to_string n) (to_string-IsNumber n))
