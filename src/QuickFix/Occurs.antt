-- ===== src/QuickFix/Occurs.antt =====
-- Where the kind of a log occurs in its path.
use fix_mon.Prelude.{
  ℕ, suc, ◌-◌, true, false, ◌||◌, Option, some, [], ◌∷◌, ◌++◌, Bytes, codes, length, is_empty, ◌==◌,
  get_or, starts_with, starts_with-append, find_text, ◌≡◌, refl, ap, inl, inr, Bool-cases,
  Option-cases, arith, ==_iff,
}
use fix_mon.QuickFix.Logs.{join_path, or_next, find_last, marker_of, log_name}

-- the text occurs in the path
abbrev pub Holds : Bytes → Bytes → Type 0
Holds n s = (p : ℕ) × (find_last n s ≡ some p)

or_next-some : (o q : Option ℕ) (p : ℕ) → o ≡ some p → or_next o q ≡ some (suc p)
or_next-some o q p e = ap (λ t. or_next t q) e

Holds-cons : (n : Bytes) (c : ℕ) (s : Bytes) → Holds n s → Holds n (c ∷ s)
unfolding find_last
Holds-cons n c s (p, e) = (suc p, or_next-some (find_last n s) _ p e)

pub Holds-append : (n xs s : Bytes) → Holds n s → Holds n (xs ++ s)
Holds-append n [] s h = h
Holds-append n (x ∷ xs) s h = Holds-cons n x (xs ++ s) (Holds-append n xs s h)

Holds-front : (n s : Bytes) → starts_with n s ≡ true → Holds n s
unfolding find_last
Holds-front n [] h = (0, rw h)
Holds-front n (c ∷ s) h = elim (Option-cases (find_last n s)) [
  | inl e ↦ (0, rw (e, h))
  | inr (p, e) ↦ Holds-cons n c s (p, e)
]

pub Holds-find_text : (n s : Bytes) {m : ℕ} → find_text n s ≡ some m → Holds n s
unfolding find_text
Holds-find_text n [] e = elim (Bool-cases (starts_with n [])) [
  | inl h ↦ Holds-front n [] h
  | inr h ↦ absurd (ground arith)
]
Holds-find_text n (c ∷ s) e = elim (Bool-cases (starts_with n (c ∷ s))) [
  | inl h ↦ Holds-front n (c ∷ s) h
  | inr h ↦ elim (Option-cases (find_text n s)) [
    | inl f ↦ absurd (ground arith)
    | inr (m, f) ↦ Holds-cons n c s (Holds-find_text n s f)
  ]
]

pub Holds-join_path : (n dir name : Bytes) → Holds n name → Holds n (join_path dir name)
unfolding join_path
Holds-join_path n dir name h = elim (Bool-cases (starts_with (codes "/") name)) [
  | inl e ↦ rw (join_path, e) h
  | inr e ↦ elim (Bool-cases (is_empty dir || get_or dir (length dir - 1) 0 == b'/')) [
    | inl f ↦ rw (join_path, e, f) (Holds-append n dir name h)
    | inr f ↦ rw (join_path, e, f) (Holds-append n dir (b'/' ∷ name) (Holds-cons n b'/' name h))
  ]
]

starts_with-suffix : (a b t : Bytes) → starts_with (a ++ b) (a ++ (b ++ t)) ≡ true
unfolding starts_with
starts_with-suffix [] b t = starts_with-append b t
starts_with-suffix (c ∷ a) b t = rw ((==_iff c c).1 refl) (starts_with-suffix a b t)

pub Holds-log_name :
    (prefix kind rest : Bytes) → Holds (marker_of kind) (log_name prefix kind (b'.' ∷ rest))
Holds-log_name prefix kind rest =
    Holds-append (marker_of kind) prefix (b'.' ∷ (kind ++ (b'.' ∷ rest))) (
      Holds-front (marker_of kind) (b'.' ∷ (kind ++ (b'.' ∷ rest)))
        ((starts_with-suffix (b'.' ∷ kind) (b'.' ∷ []) rest)))

pub Holds-some : (kind path : Bytes) → Holds (marker_of kind) path → is_empty path ≡ false
unfolding find_last starts_with
Holds-some kind [] (p, e) = cc
Holds-some kind (c ∷ path) h = refl
