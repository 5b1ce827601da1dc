-- ===== src/Prelude/Dict.antt =====
-- `std::map<std::string, V>`: an association list in the order of its keys, which compare byte by
-- byte as unsigned characters.
use Prim.Native.Nat.{compare, Ordering}
use mathlib.Core.Path.{◌≡◌, refl, sym, subst}
use mathlib.Core.Logic.{◌⊎◌, inl, inr}
use mathlib.Core.Bool.{false}
use mathlib.Core.Option.{Option, none, some}
use mathlib.Core.List.{List, [], ◌∷◌}
use native.Mathlib.Omega.{arith}
use fix_mon.Prelude.Tests.{if◌then◌else◌}
use fix_mon.Prelude.Lists.{All}
use fix_mon.Prelude.Text.{Bytes, eq_text, eq_text_iff, eq_text_refl}

pub data Compared : Type 0 where
  less same more : Compared

-- what the heads say, and what the tails say if the heads are equal
then_by : Ordering → Compared → Compared
then_by Ordering.lt c = Compared.less
then_by Ordering.eq c = c
then_by Ordering.gt c = Compared.more

unfoldable pub compare_text : Bytes → Bytes → Compared
unfolding then_by
compare_text [] [] = Compared.same
compare_text [] (y ∷ ys) = Compared.less
compare_text (x ∷ xs) [] = Compared.more
compare_text (x ∷ xs) (y ∷ ys) = then_by (compare x y) (compare_text xs ys)

pub compare_text_same : (a b : Bytes) → compare_text a b ≡ Compared.same → a ≡ b
unfolding compare_text
compare_text_same (x ∷ a) (y ∷ b) h = ground (arith, compare_text_same a b)
compare_text_same [] [] h = refl
compare_text_same [] (y ∷ b) h = cc
compare_text_same (x ∷ a) [] h = cc

pub compare_text_refl : (a : Bytes) → compare_text a a ≡ Compared.same
unfolding compare_text
compare_text_refl [] = refl
compare_text_refl (x ∷ a) = ground (arith, compare_text_refl a)

pub compare_text_flip :
    (a b : Bytes) → compare_text a b ≡ Compared.more → compare_text b a ≡ Compared.less
unfolding compare_text
compare_text_flip (x ∷ a) (y ∷ b) h = ground (arith, compare_text_flip a b)
compare_text_flip [] [] h = cc
compare_text_flip [] (y ∷ b) h = cc
compare_text_flip (x ∷ a) [] h = refl

pub compare_text_trans :
    (a b c : Bytes)
    → compare_text a b ≡ Compared.less
    → compare_text b c ≡ Compared.less
    → compare_text a c ≡ Compared.less
unfolding compare_text
compare_text_trans (x ∷ a) (y ∷ b) (z ∷ c) h k = ground (arith, compare_text_trans a b c)
compare_text_trans [] (y ∷ b) (z ∷ c) h k = refl
compare_text_trans [] [] c h k = cc
compare_text_trans a (y ∷ b) [] h k = cc
compare_text_trans (x ∷ a) [] c h k = cc

eq_text_less : (k j : Bytes) → compare_text k j ≡ Compared.less → eq_text j k ≡ false
eq_text_less k j h = ground (arith, eq_text_iff j k, compare_text_refl k)

eq_text_more : (k j : Bytes) → compare_text k j ≡ Compared.more → eq_text j k ≡ false
eq_text_more k j h = ground (arith, eq_text_iff j k, compare_text_refl k)

pub Compared-cases :
    (c : Compared) → (c ≡ Compared.less) ⊎ ((c ≡ Compared.same) ⊎ (c ≡ Compared.more))
Compared-cases Compared.less = inl refl
Compared-cases Compared.same = inr (inl refl)
Compared-cases Compared.more = inr (inr refl)

module _ {ℓ} {V : Type ℓ} where
  -- `find(k)`
  unfoldable pub lookup : Bytes → List (Bytes × V) → Option V
  lookup k [] = none
  lookup k ((j, v) ∷ m) = if eq_text j k then some v else lookup k m

  -- `f(m[k])`, where `m[k]` makes the value `d` if the key is missing
  unfoldable pub alter : Bytes → V → (V → V) → List (Bytes × V) → List (Bytes × V)
  alter k d f [] = (k, f d) ∷ []
  alter k d f ((j, v) ∷ m) = elim (compare_text k j) [
    | Compared.less ↦ (k, f d) ∷ (j, v) ∷ m
    | Compared.same ↦ (j, f v) ∷ m
    | Compared.more ↦ (j, v) ∷ alter k d f m
  ]

  -- every key of the map comes after `k`
  abbrev pub Above : Bytes → List (Bytes × V) → Type 0
  Above k [] = Unit
  Above k ((j, v) ∷ m) = (compare_text k j ≡ Compared.less) × Above k m

  abbrev pub IsSorted : List (Bytes × V) → Type 0
  IsSorted [] = Unit
  IsSorted ((j, v) ∷ m) = Above j m × IsSorted m

  Above-trans :
      (k j : Bytes) (m : List (Bytes × V))
      → compare_text k j ≡ Compared.less
      → Above j m
      → Above k m
  Above-trans k j [] h a = tt
  Above-trans k j ((i, v) ∷ m) h a = (compare_text_trans k j i h a.0, Above-trans k j m h a.1)

  pub lookup-Above : (k : Bytes) (m : List (Bytes × V)) → Above k m → lookup k m ≡ none
  unfolding lookup
  lookup-Above k [] a = refl
  lookup-Above k ((j, v) ∷ m) a = rw (eq_text_less k j a.0) (lookup-Above k m a.1)

  Above-alter :
      (j k : Bytes) (d : V) (f : V → V) (m : List (Bytes × V))
      → compare_text j k ≡ Compared.less
      → Above j m
      → Above j (alter k d f m)
  unfolding alter
  Above-alter j k d f [] h a = (h, tt)
  Above-alter j k d f ((i, v) ∷ m) h a = elim (Compared-cases (compare_text k i)) [
    | inl e ↦ rw (e, Above) (h, (a.0, a.1))
    | inr (inl e) ↦ rw (e, Above) (a.0, a.1)
    | inr (inr e) ↦ rw (e, Above) (a.0, Above-alter j k d f m h a.1)
  ]

  pub alter-IsSorted :
      (k : Bytes) (d : V) (f : V → V) (m : List (Bytes × V)) → IsSorted m → IsSorted (alter k d f m)
  unfolding alter
  alter-IsSorted k d f [] s = (tt, tt)
  alter-IsSorted k d f ((i, v) ∷ m) s = elim (Compared-cases (compare_text k i)) [
    | inl e ↦ rw (e, IsSorted) ((e, Above-trans k i m e s.0), s)
    | inr (inl e) ↦ rw (e, IsSorted) s
    | inr (inr e) ↦
        rw (e, IsSorted)
          (Above-alter i k d f m (compare_text_flip k i e) s.0, alter-IsSorted k d f m s.1)
  ]

  module _ (k j : Bytes) (d v : V) (f : V → V) (m : List (Bytes × V)) where
    alter-less : compare_text k j ≡ Compared.less → alter k d f ((j, v) ∷ m) ≡ (k, f d) ∷ (j, v) ∷ m
    unfolding alter
    alter-less e = rw (e, alter)

    alter-same : compare_text k j ≡ Compared.same → alter k d f ((j, v) ∷ m) ≡ (j, f v) ∷ m
    unfolding alter
    alter-same e = rw (e, alter)

    alter-more :
        compare_text k j ≡ Compared.more → alter k d f ((j, v) ∷ m) ≡ (j, v) ∷ alter k d f m
    unfolding alter
    alter-more e = rw (e, alter)

  abbrev pub value_or : Option V → V → V
  value_or none d = d
  value_or (some v) d = v

  -- The map law: only the altered key changes.
  pub lookup-alter :
      (i k : Bytes) (d : V) (f : V → V) (m : List (Bytes × V))
      → IsSorted m
      → lookup i (alter k d f m)
        ≡ (if eq_text k i then some (f (value_or (lookup k m) d)) else lookup i m)
  unfolding lookup
  lookup-alter i k d f [] s = unfold alter in refl
  lookup-alter i k d f ((j, v) ∷ m) s = elim (Compared-cases (compare_text k j)) [
    | inl e ↦
        rw
          (alter-less k j d v f m e, eq_text_less k j e, lookup-Above k m (Above-trans k j m e s.0))
    | inr (inl e) ↦
        rw (alter-same k j d v f m e, compare_text_same k j e, eq_text_refl j) (ground arith)
    | inr (inr e) ↦
        rw (alter-more k j d v f m e, lookup, lookup-alter i k d f m s.1, eq_text_more k j e)
          (ground (arith, eq_text_iff j i, eq_text_iff k i, eq_text_more k j e))
  ]

  pub All-alter :
      (P : Bytes × V → Type 0) (k : Bytes) (d : V) (f : V → V) (m : List (Bytes × V))
      → All P m
      → P (k, f d)
      → ((v : V) → P (k, v) → P (k, f v))
      → All P (alter k d f m)
  All-alter P k d f [] a new old = unfold alter in (new, tt)
  All-alter P k d f ((j, v) ∷ m) a new old = elim (Compared-cases (compare_text k j)) [
    | inl e ↦ rw (alter-less k j d v f m e, All) (new, a)
    | inr (inl e) ↦
        let h = compare_text_same k j e in
        rw (alter-same k j d v f m e, All)
          (subst (λ i. P (i, f v)) h (old v (subst (λ i. P (i, v)) (sym h) a.0)), a.1)
    | inr (inr e) ↦ rw (alter-more k j d v f m e, All) (a.0, All-alter P k d f m a.1 new old)
  ]
