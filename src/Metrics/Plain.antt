-- ===== src/Metrics/Plain.antt =====
-- The registry keeps names and help texts on one line, and series under encoded labels
-- (fix_monitor/src/metrics.cpp), as a scrape needs them.
use fix_mon.Prelude.{
  ℕ, ◌≡◌, refl, Bool, true, false, not, ◌&&◌, Option, none, some, List, [], ◌∷◌, Bytes, ◌==◌, leb,
  Free, All, find_index, Free-find_index, Bool-cases, Option-cases, inl, inr, arith,
}
use fix_mon.Prelude.Dict
use fix_mon.Metrics.{
  Labels, Family, empty_family, MetricRegistry, new_metrics, names_secret, declare, declare_each,
  declare_all_metrics, family_of, total, new_counter, new_gauge, counter, gauge, encode_labels,
}
use fix_mon.Metrics.Declarations.{declarations}
use fix_mon.Metrics.LabelReader.{is_equals, is_name_end, IsLabels}
use fix_mon.Metrics.Reader.{is_line_feed, IsName, IsLabelled, IsPlain}

abbrev is_none : Option ℕ → Bool
is_none none = true
is_none (some i) = false

-- tests that decide `IsName` and the conditions on labels
abbrev lacks : (ℕ → Bool) → Bytes → Bool
lacks f s = is_none (find_index f s)

abbrev pub one_line : Bytes → Bool
one_line = lacks is_line_feed

abbrev pub good_name : Bytes → Bool
good_name [] = false
good_name (c ∷ cs) = not (c == b'#') && (one_line (c ∷ cs) && lacks is_name_end (c ∷ cs))

abbrev pub good_labels : Labels → Bool
good_labels [] = true
good_labels ((k, v) ∷ labels) = one_line k && (lacks is_equals k && good_labels labels)

lacks-Free : (f : ℕ → Bool) (s : Bytes) → lacks f s ≡ true → Free f s
lacks-Free f s e = elim (Option-cases (find_index f s)) [
  | inl n ↦ Free-find_index f s n
  | inr (i, h) ↦ absurd (ground arith)
]

one_line-Free : (s : Bytes) → one_line s ≡ true → Free is_line_feed s
one_line-Free s e = lacks-Free is_line_feed s e

good_name-IsName : (s : Bytes) → good_name s ≡ true → IsName s
good_name-IsName [] e = cc
good_name-IsName (c ∷ cs) e = (
  ground arith,
  one_line-Free (c ∷ cs) (ground arith),
  lacks-Free is_name_end (c ∷ cs) (ground arith),
)

good_labels-IsLabels : (labels : Labels) → good_labels labels ≡ true → IsLabels labels
good_labels-IsLabels [] e = tt
good_labels-IsLabels ((k, v) ∷ labels) e = (
  one_line-Free k (ground arith),
  lacks-Free is_equals k (ground arith),
  good_labels-IsLabels labels (ground arith),
)

abbrev pub Plain : MetricRegistry → Type 0
Plain r = All IsPlain r.families

module _ (name : Bytes) (n : good_name name ≡ true) where
  alter-IsPlain :
      (g : Family → Family) (m : List (Bytes × Family))
      → ((f : Family) → IsPlain (name, f) → IsPlain (name, g f))
      → All IsPlain m
      → All IsPlain (Dict.alter name empty_family g m)
  alter-IsPlain g m keep a =
      Dict.All-alter IsPlain name empty_family g m a
        (keep empty_family
          (record { named = good_name-IsName name n; helped = tt; counted = tt; gauged = tt }))
        keep

  pub declare-Plain :
      (help : Bytes) (is_gauge : Bool) (r : MetricRegistry)
      → one_line help ≡ true
      → Plain r
      → Plain (declare (name, is_gauge, help) r)
  unfolding declare
  declare-Plain help g r h a =
      alter-IsPlain (λ f. record f { help = help; is_gauge = g }) r.families
        (λ f p. record {
          named = p.named;
          helped = one_line-Free help h;
          counted = p.counted;
          gauged = p.gauged;
        })
        a

  module _ (labels : Labels) (l : good_labels labels ≡ true) where
    counters-IsPlain :
        (change : ℕ → ℕ) (f : Family)
        → IsPlain (name, f)
        → IsPlain
            (name, record f { counters = Dict.alter (encode_labels labels) 0 change f.counters })
    counters-IsPlain change f p = record {
      named = p.named;
      helped = p.helped;
      gauged = p.gauged;
      counted =
          Dict.All-alter IsLabelled (encode_labels labels) 0 change f.counters p.counted
            (labels, good_labels-IsLabels labels l, refl) (λ v h. h);
    }

    gauges-IsPlain :
        (g : Bool) (change : ℕ → ℕ) (f : Family)
        → IsPlain (name, f)
        → IsPlain (
          name,
          record f { is_gauge = g; gauges = Dict.alter (encode_labels labels) 0 change f.gauges },
        )
    gauges-IsPlain g change f p = record {
      named = p.named;
      helped = p.helped;
      counted = p.counted;
      gauged =
          Dict.All-alter IsLabelled (encode_labels labels) 0 change f.gauges p.gauged
            (labels, good_labels-IsLabels labels l, refl) (λ v h. h);
    }

    -- a change of the counter, or of the gauge, with these labels
    pub alter_counter-IsPlain :
        (change : ℕ → ℕ) (m : List (Bytes × Family))
        → All IsPlain m
        → All IsPlain (
            Dict.alter name empty_family
              (λ f. record f { counters = Dict.alter (encode_labels labels) 0 change f.counters })
              m)
    alter_counter-IsPlain change m a = alter-IsPlain _ m (counters-IsPlain change) a

    pub alter_gauge-IsPlain :
        (change : ℕ → ℕ) (m : List (Bytes × Family))
        → All IsPlain m
        → All IsPlain (
            Dict.alter name empty_family
              (λ f. record f { gauges = Dict.alter (encode_labels labels) 0 change f.gauges })
              m)
    alter_gauge-IsPlain change m a =
        alter-IsPlain _ m (λ f p. gauges-IsPlain f.is_gauge change f p) a

    pub counter-Plain : (r : MetricRegistry) → Plain r → Plain (counter name labels r).1
    unfolding counter new_counter
    counter-Plain r a = elim (Bool-cases (names_secret labels)) [
      | inl e ↦ rw e a
      | inr e ↦
          elim (Option-cases (Dict.lookup (encode_labels labels) (family_of r name).counters)) [
            | inr (v, s) ↦ rw (e, s) a
            | inl s ↦ elim (Bool-cases (leb r.max_series (total r.families))) [
              | inl c ↦ rw (e, s, c) (alter-IsPlain (λ f. f) r.families (λ f p. p) a)
              | inr c ↦ rw (e, s, c) (alter_counter-IsPlain (λ v. v) r.families a)
            ]
          ]
    ]

    pub gauge-Plain : (r : MetricRegistry) → Plain r → Plain (gauge name labels r).1
    unfolding gauge new_gauge
    gauge-Plain r a = elim (Bool-cases (names_secret labels)) [
      | inl e ↦ rw e a
      | inr e ↦ elim (Option-cases (Dict.lookup (encode_labels labels) (family_of r name).gauges)) [
        | inr (v, s) ↦ rw (e, s) a
        | inl s ↦ elim (Bool-cases (leb r.max_series (total r.families))) [
          | inl c ↦
              rw (e, s, c)
                (alter-IsPlain (λ f. record f { is_gauge = true }) r.families
                  (λ f p. record {
                    named = p.named;
                    helped = p.helped;
                    counted = p.counted;
                    gauged = p.gauged;
                  })
                  a)
          | inr c ↦ rw (e, s, c) (alter-IsPlain _ r.families (gauges-IsPlain true (λ v. v)) a)
        ]
      ]
    ]

abbrev good_declarations : List (Bytes × Bool × Bytes) → Bool
good_declarations [] = true
good_declarations ((name, g, help) ∷ ds) = good_name name && one_line help && good_declarations ds

declare_each-Plain :
    (ds : List (Bytes × Bool × Bytes)) (r : MetricRegistry)
    → good_declarations ds ≡ true
    → Plain r
    → Plain (declare_each ds r)
unfolding declare_each
declare_each-Plain [] r e a = a
declare_each-Plain ((name, g, help) ∷ ds) r e a =
    declare_each-Plain ds (declare (name, g, help) r) (ground arith)
      (declare-Plain name (ground arith) help g r (ground arith) a)

-- the names and help texts of the program
pub declared-Plain : (max : ℕ) → Plain (declare_all_metrics (new_metrics max))
unfolding declare_all_metrics new_metrics find_index declarations
declared-Plain max = declare_each-Plain declarations (new_metrics max) refl tt
