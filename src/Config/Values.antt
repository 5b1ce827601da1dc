-- ===== src/Config/Values.antt =====
-- The value helpers of fix_monitor/src/config.cpp.
use fix_mon.Prelude.{
  ℕ, zero, suc, ◌*◌, ◌%◌, ◌^◌, Bool, ◌||◌, Option, none, some, Bytes, codes, map, eq_text, to_lower,
  ltb, ◌==◌, if◌then◌else◌, [], ◌∷◌, drop_while, drop_while_end,
}

-- up to the first `#` or `;`
unfoldable pub strip_comment : Bytes → Bytes
strip_comment [] = []
strip_comment (c ∷ cs) = if c == b'#' || c == b';' then [] else c ∷ strip_comment cs

abbrev pub is_margin : ℕ → Bool
is_margin c = c == b' ' || (c == b'\t' || (c == 13 || c == b'\n'))

unfoldable pub trim : Bytes → Bytes
trim s = drop_while_end is_margin (drop_while is_margin s)

unfoldable pub to_bool : Bytes → Bool
unfolding eq_text to_lower
to_bool v =
    let l = map to_lower v in
    eq_text l (codes "1")
    || (eq_text l (codes "true") || (eq_text l (codes "yes") || eq_text l (codes "y")))

-- `while (p < v) p <<= 1` on a `size_t`; `none` means that the fuel ran out.
unfoldable pub double_until : ℕ → ℕ → ℕ → Option ℕ
double_until zero v p = none
double_until (suc fuel) v p =
    let rest = double_until fuel v (p * 2 % 2 ^ 64) in if ltb p v then rest else some p

unfoldable pub next_pow2 : ℕ → ℕ → Option ℕ
next_pow2 fuel v = double_until fuel v 2
