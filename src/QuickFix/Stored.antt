-- ===== src/QuickFix/Stored.antt =====
-- What the engine's settings hold once they are read.
use fix_mon.Prelude.{
  suc, ◌+◌, false, List, [], ◌∷◌, Bytes, codes, is_empty, find_index, All, All-snoc, ◌⊎◌, ◌≡◌, refl,
  sym, subst, inl, inr, Bool-cases, Option-cases, get_lines, ◌==◌, ◌-◌, take, drop, length, get_or,
  ◌&&◌,
}
use fix_mon.Prelude.Dict
use fix_mon.Config.Values.{trim}
use fix_mon.Redact.Keys.{is_sensitive_key}
use fix_mon.QuickFix.Dictionary.{Setting, Dictionary, Block, lower, iequals, assign, overlay}
use fix_mon.QuickFix.Reader.{
  Sec, Reader, new_reader, block_of, commit, warn, on_section, forget, store, on_key, on_entry,
  on_text, read_line, read_lines, finish, parse_quickfix_settings,
}

abbrev pub IsKeyed : Bytes × Setting → Type 0
IsKeyed (k, s) = (k ≡ lower s.name) × (is_sensitive_key s.name ≡ false)

-- A dictionary in the order of its keys, without the name of a credential.
abbrev pub IsClean : Dictionary → Type 0
IsClean m = Dict.IsSorted m × All IsKeyed m

pub assign-IsClean :
    (key val : Bytes) (m : Dictionary)
    → is_sensitive_key key ≡ false
    → IsClean m
    → IsClean (assign key val m)
unfolding assign
assign-IsClean key val m h c = (
  Dict.alter-IsSorted (lower key) (record { name = key; value = [] })
      (λ s. record s { value = val }) m c.0,
  Dict.All-alter IsKeyed (lower key) (record { name = key; value = [] })
      (λ s. record s { value = val }) m c.1 (refl, h) (λ s e. e),
)

overlay-IsClean :
    (under over : Dictionary) → IsClean under → All IsKeyed over → IsClean (overlay under over)
unfolding overlay
overlay-IsClean under [] c a = c
overlay-IsClean under ((k, s) ∷ over) c a =
    overlay-IsClean (assign s.name s.value under) over
      (assign-IsClean s.name s.value under (a.0).1 c) a.1

pub record IsSound (r : Reader) : Type 0 where
  pub defaults : IsClean r.defaults
  pub current : IsClean r.current
  pub sessions : All (λ (b : Block). IsClean b.values) r.sessions

Sec-cases : (s : Sec) → (s ≡ Sec.session) ⊎ ((s ≡ Sec.default) ⊎ (s ≡ Sec.outside))
Sec-cases Sec.session = inl refl
Sec-cases Sec.default = inr (inl refl)
Sec-cases Sec.outside = inr (inr refl)

commit-IsSound : (r : Reader) → IsSound r → IsSound (commit r)
unfolding commit block_of
commit-IsSound r h = elim (Sec-cases r.sec) [
  | inl e ↦
      rw (commit, e)
        (record {
          defaults = h.defaults;
          current = (tt, tt);
          sessions =
              All-snoc (λ b. IsClean b.values) r.sessions (block_of r) h.sessions
                (overlay-IsClean r.defaults r.current h.defaults h.current.1);
        })
  | inr (inl e) ↦ rw (commit, e) h
  | inr (inr e) ↦ rw (commit, e) h
]

-- only the dictionaries and the blocks count
IsSound-same :
    (r t : Reader)
    → t.defaults ≡ r.defaults
    → t.current ≡ r.current
    → t.sessions ≡ r.sessions
    → IsSound r
    → IsSound t
IsSound-same r t e f g h = record {
  defaults = subst IsClean (sym e) h.defaults;
  current = subst IsClean (sym f) h.current;
  sessions = subst (All (λ (b : Block). IsClean b.values)) (sym g) h.sessions;
}

forget-IsSound : (key : Bytes) (r : Reader) → IsSound r → IsSound (forget key r)
unfolding forget
forget-IsSound key r h = elim (Sec-cases r.sec) [
  | inl e ↦ rw (forget, e) (IsSound-same r _ refl refl refl h)
  | inr (inl e) ↦ rw (forget, e) (IsSound-same r _ refl refl refl h)
  | inr (inr e) ↦ rw (forget, e) (IsSound-same r _ refl refl refl h)
]

store-IsSound :
    (origin key val : Bytes) (r : Reader)
    → is_sensitive_key key ≡ false
    → IsSound r
    → IsSound (store origin key val r)
unfolding store warn
store-IsSound origin key val r e h = elim (Sec-cases r.sec) [
  | inl f ↦
      rw (store, f)
        (record {
          defaults = h.defaults;
          current = assign-IsClean key val r.current e h.current;
          sessions = h.sessions;
        })
  | inr (inl f) ↦
      rw (store, f)
        (record {
          defaults = assign-IsClean key val r.defaults e h.defaults;
          current = h.current;
          sessions = h.sessions;
        })
  | inr (inr f) ↦ rw (store, f) (IsSound-same r _ refl refl refl h)
]

on_key-IsSound :
    (origin key val : Bytes) (r : Reader) → IsSound r → IsSound (on_key origin key val r)
unfolding on_key
on_key-IsSound origin key val r h = elim (Bool-cases (is_empty key)) [
  | inl e ↦ rw (on_key, e) h
  | inr e ↦ elim (Bool-cases (is_sensitive_key key)) [
    | inl f ↦ rw (on_key, e, f) (forget-IsSound key r h)
    | inr f ↦ rw (on_key, e, f) (store-IsSound origin key val r f h)
  ]
]

on_section-IsSound :
    (origin name : Bytes) (r : Reader) → IsSound r → IsSound (on_section origin name r)
unfolding on_section warn
on_section-IsSound origin name r h = elim (Bool-cases (iequals name (codes "DEFAULT"))) [
  | inl e ↦ rw (on_section, e) (IsSound-same r _ refl refl refl h)
  | inr e ↦ elim (Bool-cases (iequals name (codes "SESSION"))) [
    | inl f ↦ rw (on_section, e, f) (IsSound-same r _ refl refl refl h)
    | inr f ↦ rw (on_section, e, f) (IsSound-same r _ refl refl refl h)
  ]
]

on_entry-IsSound : (origin t : Bytes) (r : Reader) → IsSound r → IsSound (on_entry origin t r)
unfolding on_entry warn
on_entry-IsSound origin t r h = elim (Option-cases (find_index (λ c. c == b'=') t)) [
  | inl e ↦ rw (on_entry, e) (IsSound-same r _ refl refl refl h)
  | inr (i, e) ↦
      rw (on_entry, e) (on_key-IsSound origin (trim (take i t)) (trim (drop (suc i) t)) r h)
]

on_text-IsSound : (origin t : Bytes) (r : Reader) → IsSound r → IsSound (on_text origin t r)
unfolding on_text
on_text-IsSound origin [] r h = h
on_text-IsSound origin (c ∷ t) r h = elim (Bool-cases (c == b'#')) [
  | inl e ↦ rw e h
  | inr e ↦ elim (Bool-cases (c == b'[' && get_or (c ∷ t) (length t) 0 == b']')) [
    | inl f ↦
        rw (e, f)
          (on_section-IsSound origin (trim (take (length t - 1) t)) (commit r) (commit-IsSound r h))
    | inr f ↦ rw (e, f) (on_entry-IsSound origin (c ∷ t) r h)
  ]
]

pub read_lines-IsSound :
    (origin : Bytes) (ls : List Bytes) (r : Reader) → IsSound r → IsSound (read_lines origin ls r)
unfolding read_lines read_line
read_lines-IsSound origin [] r h = h
read_lines-IsSound origin (l ∷ ls) r h = read_lines-IsSound origin ls (read_line origin l r) (
    on_text-IsSound origin (trim l) (record r { lineno = r.lineno + 1 })
      (IsSound-same r _ refl refl refl h))

pub new_reader-IsSound : IsSound new_reader
new_reader-IsSound = record { defaults = (tt, tt); current = (tt, tt); sessions = tt }

-- However the engine's settings are written, no dictionary that is read from them has the name of
-- a credential in it, neither the defaults nor any session's; and each is in the order of its
-- keys, one entry for each name without regard to case.
pub parse_quickfix_settings-IsClean :
    (text origin : Bytes)
    → IsClean (parse_quickfix_settings text origin).defaults
      × All (λ (b : Block). IsClean b.values) (parse_quickfix_settings text origin).sessions
unfolding parse_quickfix_settings finish
parse_quickfix_settings-IsClean text origin =
    let r = read_lines origin (get_lines text) new_reader in
    let h : IsSound r = read_lines-IsSound origin (get_lines text) new_reader new_reader-IsSound in
    (h.defaults, (commit-IsSound r h).sessions)
