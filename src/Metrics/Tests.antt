-- ===== src/Metrics/Tests.antt =====
-- Runs of the metric registry, and concrete uses of the theorems about it.
use fix_mon.Prelude.{◌≤◌, ◌≡◌, refl, [], ◌∷◌, codes}
use fix_mon.Metrics.{
  MetricRegistry, Labels, new_metrics, series_count, counter, gauge, escape, encode_labels,
  encode_rest,
}
use fix_mon.Metrics.Cap.{Step, Reach, series_count-Reach}

encode_labels-two :
    encode_labels ((codes "a", codes "x") ∷ (codes "b", codes "y\n") ∷ [])
    ≡ codes "{a=\"x\",b=\"y\\n\"}"
unfolding encode_labels encode_rest escape
encode_labels-two = refl

abbrev session : Labels
session = (codes "session", codes "A") ∷ []

abbrev counted : MetricRegistry
counted = (counter (codes "lines") session (new_metrics 1)).1

counted-Reach : Reach 1 (gauge (codes "depth") [] counted).1
counted-Reach =
    Reach.next (Reach.next Reach.made (Step.counts (codes "lines") session (new_metrics 1)))
      (Step.gauges (codes "depth") [] counted)

series_count-Reach_example :
    ((gauge (codes "depth") [] counted).1.max_series ≡ 1)
    × (series_count (gauge (codes "depth") [] counted).1 ≤ 1)
series_count-Reach_example = series_count-Reach counted-Reach
