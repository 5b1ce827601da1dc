-- ===== src/Metrics/Escaping.antt =====
-- Label values in the exposition format (fix_monitor/src/metrics.cpp).
use fix_mon.Prelude.{
  ℕ, ◌≡◌, refl, Bool, true, false, [], ◌∷◌, Bytes, ◌==◌, ◌||◌, if◌then◌else◌, Free, arith, inl, inr,
  Bool-cases, ==_iff,
}
use fix_mon.Metrics.{escape}

-- What a reader of the format makes of a value; the flag tells that a backslash came before.
abbrev pub unescape : Bool → Bytes → Bytes
unescape b [] = []
unescape true (c ∷ cs) = (if c == b'n' then b'\n' else c) ∷ unescape false cs
unescape false (c ∷ cs) = if c == 92 then unescape true cs else c ∷ unescape false cs

plain : (c : ℕ) → (c == 34 || c == 92) ≡ true → ((c == b'n') ≡ false) × ((c == b'\n') ≡ false)
plain c e = (ground arith, ground arith)

no_slash : (c : ℕ) → (c == 34 || c == 92) ≡ false → (c == 92) ≡ false
no_slash c n = ground arith

-- A label value stays on its line, and a reader of the exposition format gets back the value that
-- was written.
pub unescape-escape :
    (v : Bytes) → Free (λ c. c == b'\n') (escape v) × (unescape false (escape v) ≡ v)
unfolding escape
unescape-escape [] = (tt, refl)
unescape-escape (c ∷ cs) =
    let (line, back) = unescape-escape cs in
    elim (Bool-cases (c == 34 || c == 92)) [
      | inl e ↦
          let other = plain c e in rw (e, escape) ((refl, (other.1, line)), rw (other.0, back))
      | inr n ↦ elim (Bool-cases (c == b'\n')) [
        | inl b ↦ rw (n, b, escape) ((refl, (refl, line)), rw (back, (==_iff c b'\n').0 b))
        | inr b ↦ rw (n, b, escape) ((b, line), rw (no_slash c n, back))
      ]
    ]
