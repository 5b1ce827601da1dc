-- ===== src/Metrics/Values.antt =====
-- The value of a counter as the registry changes (fix_monitor/src/metrics.cpp).
use fix_mon.Prelude.{
  ℕ, ◌+◌, ◌<◌, ◌^◌, ◌≡◌, refl, ap, ◌∙◌, Bool, true, false, ◌&&◌, Option, some, List, [], ◌∷◌, Bytes,
  leb, eq_text, if◌then◌else◌, eq_text_iff, All, Bool-cases, Option-cases, inl, inr, arith,
}
use fix_mon.Prelude.Dict
use fix_mon.Metrics.{
  Labels, Family, empty_family, MetricRegistry, names_secret, total, family_of, at_family, full,
  new_counter, counter, encode_labels,
}

-- the maps are in the order of their keys
abbrev pub InOrder : Bytes × Family → Type 0
InOrder (name, f) = Dict.IsSorted f.counters × Dict.IsSorted f.gauges

pub record IsOrdered (r : MetricRegistry) : Type 0 where
  pub families : Dict.IsSorted r.families
  pub series : All InOrder r.families

-- the value of the counter in this family with these labels, encoded, and 0 where there is none
abbrev pub counter_value : Bytes → Bytes → MetricRegistry → ℕ
counter_value name key r = Dict.value_or (Dict.lookup key (family_of r name).counters) 0

value_or_if :
    {V : Type 0} (b : Bool) (v d : V) (o : Option V)
    → Dict.value_or (if b then some v else o) d ≡ (if b then v else Dict.value_or o d)
value_or_if true v d o = refl
value_or_if false v d o = refl

family_of-at_family :
    (name other : Bytes) (f : Family → Family) (r : MetricRegistry)
    → IsOrdered r
    → family_of (at_family name f r) other
      ≡ (if eq_text name other then f (family_of r name) else family_of r other)
family_of-at_family name other f r o =
    ap (λ x. Dict.value_or x empty_family)
      (Dict.lookup-alter other name empty_family f r.families o.families)
    ∙ value_or_if (eq_text name other) (f (family_of r name)) empty_family
        (Dict.lookup other r.families)

counters-IsSorted :
    (name : Bytes) (m : List (Bytes × Family))
    → All InOrder m
    → Dict.IsSorted (Dict.value_or (Dict.lookup name m) empty_family).counters
unfolding Dict.lookup
counters-IsSorted name [] a = tt
counters-IsSorted name ((j, g) ∷ m) a = elim (Bool-cases (eq_text j name)) [
  | inl e ↦ rw (Dict.lookup, e) (a.0.0)
  | inr e ↦ rw (Dict.lookup, e) (counters-IsSorted name m a.1)
]

-- a counter changed in its family
abbrev pub changed : Bytes → Bytes → (ℕ → ℕ) → MetricRegistry → MetricRegistry
changed name key f r = at_family name (λ g. record g { counters = Dict.alter key 0 f g.counters }) r

pub counter_value-changed :
    (name key other k : Bytes) (f : ℕ → ℕ) (r : MetricRegistry)
    → IsOrdered r
    → counter_value other k (changed name key f r) ≡ (
        if eq_text name other && eq_text key k
        then f (counter_value name key r)
        else counter_value other k r)
counter_value-changed name key other k f r o =
    let here = family_of r name in
    let sorted = counters-IsSorted name r.families o.series in
    let inside : Dict.value_or (Dict.lookup k (Dict.alter key 0 f here.counters)) 0
        ≡ (if eq_text key k then f (counter_value name key r) else counter_value name k r) =
      ap (λ x. Dict.value_or x 0) (Dict.lookup-alter k key 0 f here.counters sorted)
      ∙ value_or_if (eq_text key k) (f (counter_value name key r)) 0
          (Dict.lookup k here.counters) in
    ap (λ (g : Family). Dict.value_or (Dict.lookup k g.counters) 0)
      (family_of-at_family name other (λ g. record g { counters = Dict.alter key 0 f g.counters }) r
        o)
    ∙ elim (Bool-cases (eq_text name other)) [
      | inl e ↦
          let same = (eq_text_iff name other).0 e in
          rw e (
            inside
            ∙ ap
                (λ (n : Bytes).
                  if eq_text key k then f (counter_value name key r) else counter_value n k r)
                same)
      | inr e ↦ rw e
    ]

-- the series that were refused
abbrev pub turned_away : MetricRegistry → ℕ
turned_away r = r.rejected + r.redacted_series

-- no counter has moved, and so many series were refused in between
pub record IsKept (r t : MetricRegistry) (n : ℕ) : Type 0 where
  pub values : (name key : Bytes) → counter_value name key t ≡ counter_value name key r
  pub counted : turned_away t ≡ turned_away r + n
  pub ordered : IsOrdered t

-- what `counter` leaves: the values as they were, and a refusal where it returned none
abbrev pub Answered : MetricRegistry → Bool × MetricRegistry → Type 0
Answered r (true, t) = IsKept r t 0
Answered r (false, t) = IsKept r t 1

pub unmoved :
    (name key other k : Bytes) (r : MetricRegistry)
    → (if eq_text name other && eq_text key k
        then counter_value name key r
        else counter_value other k r)
      ≡ counter_value other k r
unmoved name key other k r = elim (Bool-cases (eq_text name other)) [
  | inr e ↦ rw e
  | inl e ↦ elim (Bool-cases (eq_text key k)) [
    | inr g ↦ rw (e, g)
    | inl g ↦
        rw (e, g)
          (ap (λ (n : Bytes). counter_value n key r) ((eq_text_iff name other).0 e)
            ∙ ap (λ (n : Bytes). counter_value other n r) ((eq_text_iff key k).0 g))
  ]
]

-- a family that is only looked up stays as it is
kept :
    (name other key : Bytes) (r : MetricRegistry)
    → IsOrdered r
    → counter_value other key (at_family name (λ f. f) r) ≡ counter_value other key r
kept name other key r o =
    ap (λ (g : Family). Dict.value_or (Dict.lookup key g.counters) 0)
      (family_of-at_family name other (λ f. f) r o)
    ∙ elim (Bool-cases (eq_text name other)) [
      | inl e ↦ rw e (ap (λ (n : Bytes). counter_value n key r) ((eq_text_iff name other).0 e))
      | inr e ↦ rw e
    ]

kept-IsOrdered :
    (name : Bytes) (r : MetricRegistry) → IsOrdered r → IsOrdered (full (at_family name (λ f. f) r))
kept-IsOrdered name r o = record {
  families = Dict.alter-IsSorted name empty_family (λ f. f) r.families o.families;
  series =
      Dict.All-alter InOrder name empty_family (λ f. f) r.families o.series (tt, tt) (λ g p. p);
}

pub changed-IsOrdered :
    (name key : Bytes) (f : ℕ → ℕ) (r : MetricRegistry)
    → IsOrdered r
    → IsOrdered (changed name key f r)
changed-IsOrdered name key f r o = record {
  families =
      Dict.alter-IsSorted name empty_family
        (λ g. record g { counters = Dict.alter key 0 f g.counters }) r.families o.families;
  series =
      Dict.All-alter InOrder name empty_family
        (λ g. record g { counters = Dict.alter key 0 f g.counters }) r.families o.series
        (Dict.alter-IsSorted key 0 f [] tt, tt)
        (λ g p. (Dict.alter-IsSorted key 0 f g.counters p.0, p.1));
}

pub counter-Answered :
    (name : Bytes) (labels : Labels) (r : MetricRegistry)
    → IsOrdered r
    → turned_away r + 1 < 2 ^ 64
    → Answered r (counter name labels r)
unfolding counter new_counter
counter-Answered name labels r o small = elim (Bool-cases (names_secret labels)) [
  | inl e ↦ rw e (record {
    values = λ n k. refl;
    counted = omega arith;
    ordered = record { families = o.families; series = o.series };
  })
  | inr e ↦ elim (Option-cases (Dict.lookup (encode_labels labels) (family_of r name).counters)) [
    | inr (v, s) ↦ rw (e, s) (record { values = λ n k. refl; counted = omega arith; ordered = o })
    | inl s ↦ elim (Bool-cases (leb r.max_series (total r.families))) [
      | inl c ↦
          rw (e, s, c)
            (record {
              values = λ n k. kept name n k r o;
              counted = omega arith;
              ordered = kept-IsOrdered name r o;
            })
      | inr c ↦
          rw (e, s, c)
            (record {
              values = λ n k.
                  counter_value-changed name (encode_labels labels) n k (λ v. v) r o
                  ∙ unmoved name (encode_labels labels) n k r;
              counted = omega arith;
              ordered = changed-IsOrdered name (encode_labels labels) (λ v. v) r o;
            })
    ]
  ]
]
