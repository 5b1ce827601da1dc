-- ===== src/QuickFix/Dictionary.antt =====
-- `QuickFixDictionary`: a map whose keys compare without regard to case. The key of an entry is its
-- name in lower case; the name is the spelling that came first, and assigning keeps it.
use fix_mon.Prelude.{
  Bool, true, false, Option, none, some, List, [], ◌∷◌, map, Bytes, is_empty, to_lower, eq_text,
  if◌then◌else◌, ℤ, stoi,
}
use fix_mon.Prelude.Dict
use fix_mon.Config.Session.{TriState, parse_tristate}

unfoldable pub lower : Bytes → Bytes
unfolding to_lower
lower s = map to_lower s

unfoldable pub iequals : Bytes → Bytes → Bool
iequals a b = eq_text (lower a) (lower b)

pub record Setting : Type 0 where
  pub name : Bytes
  pub value : Bytes

abbrev pub Dictionary : Type 0
Dictionary = List (Bytes × Setting)

-- `dictionary[key] = val`
unfoldable pub assign : Bytes → Bytes → Dictionary → Dictionary
assign key val m =
    Dict.alter (lower key) (record { name = key; value = [] }) (λ s. record s { value = val }) m

-- the loop over `current` that lays it over the defaults
unfoldable pub overlay : Dictionary → Dictionary → Dictionary
overlay under [] = under
overlay under ((k, s) ∷ over) = overlay (assign s.name s.value under) over

pub record Block : Type 0 where
  pub values : Dictionary
  pub redacted_keys : List Bytes

unfoldable pub find_setting : Block → Bytes → Option Setting
find_setting b key = Dict.lookup (lower key) b.values

unfoldable pub has : Block → Bytes → Bool
has b key = elim (find_setting b key) [ none ↦ false | some s ↦ true ]

unfoldable pub get : Block → Bytes → Bytes → Bytes
get b key fallback = elim (find_setting b key) [
  | none ↦ fallback
  | some s ↦ if is_empty s.value then fallback else s.value
]

unfoldable pub get_int : Block → Bytes → ℤ → ℤ
get_int b key fallback = elim (find_setting b key) [
  | none ↦ fallback
  | some s ↦ elim (stoi s.value) [ none ↦ fallback | some v ↦ v ]
]

unfoldable pub get_bool : Block → Bytes → TriState
get_bool b key = elim (find_setting b key) [
  | none ↦ TriState.unknown
  | some s ↦ parse_tristate s.value
]
