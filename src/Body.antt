-- ===== src/Body.antt =====
-- A FIX body as the fields that it is written from: `tag=value` and a separator each.
use fix_mon.Prelude.{ℕ, ◌≡◌, Bool, true, List, [], ◌∷◌, ◌++◌, Bytes, Free, ◌==◌}

pub record Field : Type 0 where
  pub tag : Bytes
  pub value : Bytes
  pub sep : ℕ

-- a tag text without `=`, a value without separators, and a separator behind it
pub record IsField (sep? : ℕ → Bool) (f : Field) : Type 0 where
  pub tag_free : Free (λ c. c == b'=') f.tag
  pub value_free : Free sep? f.value
  pub sep_is : sep? f.sep ≡ true

abbrev pub encode : List Field → Bytes
encode [] = []
encode (f ∷ fs) = f.tag ++ (b'=' ∷ (f.value ++ (f.sep ∷ encode fs)))
