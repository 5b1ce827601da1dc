-- ===== src/QuickFix/Overlay.antt =====
-- A session's own settings over the defaults.
use fix_mon.Prelude.{
  List, [], ◌∷◌, Bytes, eq_text, eq_text_iff, if◌then◌else◌, Option, none, some, ◌≡◌, refl, sym, ap,
  ◌∙◌, subst, inl, inr, Bool-cases,
}
use fix_mon.Prelude.Dict
use fix_mon.QuickFix.Dictionary.{Setting, Dictionary, lower, assign, overlay, find_setting}
use fix_mon.QuickFix.Reader.{new_reader, block_of, read_lines}
use fix_mon.QuickFix.Stored.{
  IsClean, IsSound, assign-IsClean, new_reader-IsSound, read_lines-IsSound,
}

-- `values.find`, the value alone
abbrev pub value_of : Option Setting → Option Bytes
value_of none = none
value_of (some s) = some s.value

abbrev pub or_default {ℓ} : {A : Type ℓ} → Option A → Option A → Option A
or_default none y = y
or_default (some x) y = some x

lookup-assign :
    (k key val : Bytes) (m : Dictionary)
    → IsClean m
    → value_of (Dict.lookup k (assign key val m))
      ≡ (if eq_text (lower key) k then some val else value_of (Dict.lookup k m))
unfolding assign
lookup-assign k key val m c =
    ap value_of (
      Dict.lookup-alter k (lower key) (record { name = key; value = [] })
        (λ s. record s { value = val }) m c.0)
    ∙ elim (Bool-cases (eq_text (lower key) k)) [ inl e ↦ rw e | inr e ↦ rw e ]

overlay_lem :
    (k : Bytes) (under over : Dictionary)
    → IsClean under
    → IsClean over
    → value_of (Dict.lookup k (overlay under over))
      ≡ or_default (value_of (Dict.lookup k over)) (value_of (Dict.lookup k under))
unfolding overlay Dict.lookup
overlay_lem k under [] c d = refl
overlay_lem k under ((j, s) ∷ over) c d =
    let first = d.1.0 in
    overlay_lem k (assign s.name s.value under) over (assign-IsClean s.name s.value under first.1 c)
      (d.0.1, d.1.1)
    ∙ ap (or_default (value_of (Dict.lookup k over))) (
        lookup-assign k s.name s.value under c
        ∙ ap (λ t. if eq_text t k then some s.value else value_of (Dict.lookup k under))
            (sym first.0))
    ∙ elim (Bool-cases (eq_text j k)) [
      | inl e ↦ rw (
        e,
        Dict.lookup-Above k over (subst (λ t. Dict.Above t over) ((eq_text_iff j k).0 e) d.0.0),
      )
      | inr e ↦ rw e
    ]

-- What a session's block holds under a name, once any lines have been read: the value among the
-- current settings of the reader, and the default only where there is none.
pub block_of-find :
    (origin : Bytes) (ls : List Bytes) (key : Bytes)
    → value_of (find_setting (block_of (read_lines origin ls new_reader)) key)
      ≡ or_default
          (value_of (Dict.lookup (lower key) (read_lines origin ls new_reader).current))
          (value_of (Dict.lookup (lower key) (read_lines origin ls new_reader).defaults))
unfolding block_of find_setting
block_of-find origin ls key =
    let r = read_lines origin ls new_reader in
    let h : IsSound r = read_lines-IsSound origin ls new_reader new_reader-IsSound in
    overlay_lem (lower key) r.defaults r.current h.defaults h.current
