-- ===== src/Prelude/Numbers.antt =====
-- Numbers as text: `std::stoi` and `std::to_string`, and texts cut into lines or at a separator.
use Prim.Native.Nat.{ℕ, zero, suc, ◌+◌, ◌-◌, ◌*◌, ◌/◌, ◌%◌, ◌^◌}
use mathlib.Core.Bool.{Bool, true, false, ◌&&◌, ◌||◌}
use mathlib.Core.Option.{Option, none, some}
use mathlib.Core.List.{List, [], ◌∷◌, ◌++◌}
use mathlib.Core.Path.{◌≡◌, refl, ap, ◌∙◌}
use fix_mon.Prelude.Tests.{leb, ltb, ◌==◌, if◌then◌else◌}
use fix_mon.Prelude.Lists.{All}
use fix_mon.Prelude.Text.{Bytes, is_digit, drop_while, Free}
use fix_mon.Prelude.Int.{ℤ, pos, negsuc}

-- `std::isspace` in the C locale
unfoldable pub is_space_char : ℕ → Bool
is_space_char c = c == b' ' || leb 9 c && leb c 13

-- the number that the digits at the front write, after `v`
unfoldable pub digits_value : ℕ → Bytes → ℕ
digits_value v [] = v
digits_value v (c ∷ cs) = if is_digit c then digits_value (v * 10 + (c - b'0')) cs else v

abbrev starts_digit : Bytes → Bool
starts_digit [] = false
starts_digit (c ∷ cs) = is_digit c

-- the number with its sign, if it is an `int`
unfoldable pub in_int : Bool → ℕ → Option ℤ
in_int false v = if ltb v (2 ^ 31) then some (pos v) else none
in_int true zero = some (pos 0)
in_int true (suc v) = if ltb v (2 ^ 31) then some (negsuc v) else none

abbrev signed : Bool → Bytes → Option ℤ
signed negative cs = if starts_digit cs then in_int negative (digits_value 0 cs) else none

abbrev after_space : Bytes → Option ℤ
after_space [] = none
after_space (c ∷ cs) =
    if c == b'-'
    then signed true cs
    else if c == b'+'
    then signed false cs
    else signed false (c ∷ cs)

-- `std::stoi`; `none` where it throws
unfoldable pub stoi : Bytes → Option ℤ
unfolding digits_value in_int is_space_char is_digit
stoi s = after_space (drop_while is_space_char s)

-- the number with its sign, if it is an `unsigned long`: a minus sign negates modulo 2 ^ 64
unfoldable pub in_ulong : Bool → ℕ → Option ℕ
in_ulong negative v =
    if leb (2 ^ 64) v then none else some (if negative then (2 ^ 64 - v) % 2 ^ 64 else v)

abbrev signed_ulong : Bool → Bytes → Option ℕ
signed_ulong negative cs = if starts_digit cs then in_ulong negative (digits_value 0 cs) else none

abbrev ulong_after_space : Bytes → Option ℕ
ulong_after_space [] = none
ulong_after_space (c ∷ cs) =
    if c == b'-'
    then signed_ulong true cs
    else if c == b'+'
    then signed_ulong false cs
    else signed_ulong false (c ∷ cs)

-- `std::stoul`; `none` where it throws
unfoldable pub stoul : Bytes → Option ℕ
unfolding digits_value in_ulong is_space_char is_digit
stoul s = ulong_after_space (drop_while is_space_char s)

-- the digits of `n` in front of `acc`; a number has fewer digits than its successor has fuel
abbrev pub digits_onto : ℕ → ℕ → Bytes → Bytes
digits_onto zero n acc = acc
digits_onto (suc fuel) n acc = elim (ltb n 10) [
  | true ↦ (b'0' + n) ∷ acc
  | false ↦ digits_onto fuel (n / 10) ((b'0' + n % 10) ∷ acc)
]

-- `std::to_string` of a number that is not negative
unfoldable pub to_string : ℕ → Bytes
to_string n = digits_onto (suc n) n []

abbrev onto_first : ℕ → List Bytes → List Bytes
onto_first c [] = (c ∷ []) ∷ []
onto_first c (l ∷ ls) = (c ∷ l) ∷ ls

-- the lines that `std::getline` reads, one after the other
unfoldable pub get_lines : Bytes → List Bytes
get_lines [] = []
get_lines (c ∷ cs) = let rest = get_lines cs in if c == b'\n' then [] ∷ rest else onto_first c rest

-- the parts between the separators
unfoldable pub split : Bytes → ℕ → List Bytes
split [] sep = [] ∷ []
split (c ∷ cs) sep = let rest = split cs sep in if c == sep then [] ∷ rest else onto_first c rest

-- each line with its line feed
abbrev pub unlines : List Bytes → Bytes
unlines [] = []
unlines (l ∷ ls) = l ++ b'\n' ∷ unlines ls

pub get_lines-line :
    (l rest : Bytes) → Free (λ c. c == b'\n') l → get_lines (l ++ b'\n' ∷ rest) ≡ l ∷ get_lines rest
unfolding get_lines
get_lines-line [] rest h = refl
get_lines-line (c ∷ l) rest h = rw (h.0, get_lines-line l rest h.1)

pub get_lines-unlines :
    (ls : List Bytes) → All (Free (λ c. c == b'\n')) ls → get_lines (unlines ls) ≡ ls
unfolding get_lines
get_lines-unlines [] h = refl
get_lines-unlines (l ∷ ls) h =
    get_lines-line l (unlines ls) h.0 ∙ ap (λ t. l ∷ t) (get_lines-unlines ls h.1)
