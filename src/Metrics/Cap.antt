-- ===== src/Metrics/Cap.antt =====
-- The cap on the number of series, and refused labels (fix_monitor/src/metrics.cpp).
use fix_mon.Prelude.{
  ℕ, ◌++◌, ◌%◌, ◌^◌, ◌+◌, ◌≤◌, ◌<◌, ◌≡◌, refl, ◌∙◌, Bool, true, false, List, [], ◌∷◌, Bytes, length,
  leb, arith, inl, inr, Bool-cases, Option-cases,
}
use fix_mon.Prelude.Dict
use fix_mon.Redact.Keys.{is_sensitive_key}
use fix_mon.Metrics.{
  Labels, Family, empty_family, MetricRegistry, new_metrics, names_secret, declare, size, total,
  series_count, family_of, new_counter, new_gauge, counter, gauge, encode_labels,
}

-- what the program does with the registry after it has made it
pub data Step : MetricRegistry → MetricRegistry → Type 0 where
  declares : (d : Bytes × Bool × Bytes) (r : MetricRegistry) → Step r (declare d r)
  counts : (name : Bytes) (labels : Labels) (r : MetricRegistry) → Step r (counter name labels r).1
  gauges : (name : Bytes) (labels : Labels) (r : MetricRegistry) → Step r (gauge name labels r).1

pub data Reach (max : ℕ) : MetricRegistry → Type 0 where
  made : Reach max (new_metrics max)
  next : {r t : MetricRegistry} → Reach max r → Step r t → Reach max t

names_secret-append :
    (before after : Labels) (key value : Bytes)
    → is_sensitive_key key ≡ true
    → names_secret (before ++ (key, value) ∷ after) ≡ true
unfolding names_secret
names_secret-append [] after key value h = rw h
names_secret-append ((k, v) ∷ before) after key value h = elim (Bool-cases (is_sensitive_key k)) [
  | inl e ↦ rw e
  | inr e ↦ rw e (names_secret-append before after key value h)
]

length-alter :
    (k : Bytes) (d : ℕ) (f : ℕ → ℕ) (m : List (Bytes × ℕ))
    → length (Dict.alter k d f m) ≤ length m + 1
unfolding Dict.alter
length-alter k d f [] = omega arith
length-alter k d f ((j, v) ∷ m) = elim (Dict.Compared-cases (Dict.compare_text k j)) [
  | inl e ↦ rw (e, Dict.alter) (omega arith)
  | inr (inl e) ↦ rw (e, Dict.alter) (omega arith)
  | inr (inr e) ↦ rw (e, Dict.alter) (omega (arith, length-alter k d f m))
]

-- a family that grows by `n` at most lets the total grow by `n` at most
total-alter :
    (n : ℕ) (k : Bytes) (f : Family → Family) (m : List (Bytes × Family))
    → ((x : Family) → size (f x) ≤ size x + n)
    → total (Dict.alter k empty_family f m) ≤ total m + n
unfolding Dict.alter
total-alter n k f [] h = omega (arith, h empty_family)
total-alter n k f ((j, v) ∷ m) h = elim (Dict.Compared-cases (Dict.compare_text k j)) [
  | inl e ↦ rw (e, Dict.alter) (omega (arith, h empty_family))
  | inr (inl e) ↦ rw (e, Dict.alter) (omega (arith, h v))
  | inr (inr e) ↦ rw (e, Dict.alter) (omega (arith, total-alter n k f m h))
]

room : (a b : ℕ) → leb a b ≡ false → b < a
room a b h = ground arith

-- within the cap, and the cap as it was
abbrev Capped : MetricRegistry → MetricRegistry → Type 0
Capped r t = (t.max_series ≡ r.max_series) × (total t.families ≤ r.max_series)

declare-Capped :
    (d : Bytes × Bool × Bytes) (r : MetricRegistry)
    → total r.families ≤ r.max_series
    → Capped r (declare d r)
unfolding declare
declare-Capped (name, g, help) r h = (
  refl,
  omega (
    arith,
    total-alter 0 name (λ f. record f { help = help; is_gauge = g }) r.families (λ x. omega arith),
  ),
)

new_counter-Capped :
    (name key : Bytes) (r : MetricRegistry)
    → total r.families ≤ r.max_series
    → Capped r (new_counter name key r).1
unfolding new_counter
new_counter-Capped name key r h = elim (Bool-cases (leb r.max_series (total r.families))) [
  | inl e ↦
      rw (e, new_counter)
        (refl, omega (arith, total-alter 0 name (λ f. f) r.families (λ x. omega arith)))
  | inr e ↦
      rw (e, new_counter)
        (
          refl,
          omega (
            arith,
            total-alter 1 name (λ f. record f { counters = Dict.alter key 0 (λ v. v) f.counters })
                r.families (λ x. omega (arith, length-alter key 0 (λ v. v) x.counters)),
            room r.max_series (total r.families) e,
          ),
        )
]

new_gauge-Capped :
    (name key : Bytes) (r : MetricRegistry)
    → total r.families ≤ r.max_series
    → Capped r (new_gauge name key r).1
unfolding new_gauge
new_gauge-Capped name key r h = elim (Bool-cases (leb r.max_series (total r.families))) [
  | inl e ↦
      rw (e, new_gauge)
        (
          refl,
          omega (
            arith,
            total-alter 0 name (λ f. record f { is_gauge = true }) r.families (λ x. omega arith),
          ),
        )
  | inr e ↦
      rw (e, new_gauge)
        (
          refl,
          omega (
            arith,
            total-alter 1 name
                (λ f. record f { is_gauge = true; gauges = Dict.alter key 0 (λ v. v) f.gauges })
                r.families (λ x. omega (arith, length-alter key 0 (λ v. v) x.gauges)),
            room r.max_series (total r.families) e,
          ),
        )
]

counter-Capped :
    (name : Bytes) (labels : Labels) (r : MetricRegistry)
    → total r.families ≤ r.max_series
    → Capped r (counter name labels r).1
unfolding counter
counter-Capped name labels r h = elim (Bool-cases (names_secret labels)) [
  | inl e ↦ rw (e, counter) (refl, h)
  | inr e ↦
      rw (e, counter)
        (elim (Option-cases (Dict.lookup (encode_labels labels) (family_of r name).counters)) [
          | inl n ↦ rw (n, counter) (new_counter-Capped name (encode_labels labels) r h)
          | inr (v, s) ↦ rw (s, counter) (refl, h)
        ])
]

gauge-Capped :
    (name : Bytes) (labels : Labels) (r : MetricRegistry)
    → total r.families ≤ r.max_series
    → Capped r (gauge name labels r).1
unfolding gauge
gauge-Capped name labels r h = elim (Bool-cases (names_secret labels)) [
  | inl e ↦ rw (e, gauge) (refl, h)
  | inr e ↦
      rw (e, gauge)
        (elim (Option-cases (Dict.lookup (encode_labels labels) (family_of r name).gauges)) [
          | inl n ↦ rw (n, gauge) (new_gauge-Capped name (encode_labels labels) r h)
          | inr (v, s) ↦ rw (s, gauge) (refl, h)
        ])
]

Step-Capped : {r t : MetricRegistry} → Step r t → total r.families ≤ r.max_series → Capped r t
Step-Capped (declares d r) h = declare-Capped d r h
Step-Capped (counts name labels r) h = counter-Capped name labels r h
Step-Capped (gauges name labels r) h = gauge-Capped name labels r h

-- However the registry is used, and whatever the labels are made of, it never holds more series
-- than the number that it was made with.
pub series_count-Reach :
    {max : ℕ} {r : MetricRegistry} → Reach max r → (r.max_series ≡ max) × (series_count r ≤ max)
unfolding series_count new_metrics
series_count-Reach made = (refl, omega arith)
series_count-Reach (next h st) =
    let (cap, within) = series_count-Reach h in
    let (kept, fits) = Step-Capped st (omega (arith, within, cap)) in
    (kept ∙ cap, omega (arith, fits, cap))

-- A label that is named like a credential keeps the whole series out: nothing is handed out, the
-- families stay as they are and the refusal is counted, for counters and gauges alike.
pub refuse_sensitive :
    (name : Bytes) (before after : Labels) (key value : Bytes) (r : MetricRegistry)
    → is_sensitive_key key ≡ true
    → (counter name (before ++ (key, value) ∷ after) r
        ≡ (false, record r { redacted_series = (r.redacted_series + 1) % 2 ^ 64 }))
      × (gauge name (before ++ (key, value) ∷ after) r
          ≡ (false, record r { redacted_series = (r.redacted_series + 1) % 2 ^ 64 }))
unfolding counter gauge
refuse_sensitive name before after key value r h =
    let e = names_secret-append before after key value h in (rw (e, counter), rw (e, gauge))
