-- ===== src/Metrics/Exposition.antt =====
-- `MetricRegistry::expose` (fix_monitor/src/metrics.cpp): the text of a scrape. How the stream
-- writes the double of a gauge, in fixed notation with six places, is a parameter on its bits.
use fix_mon.Prelude.{
  ℕ, Bool, ◌&&◌, List, [], ◌∷◌, ◌++◌, Bytes, codes, is_empty, if◌then◌else◌, to_string,
}
use fix_mon.Metrics.{Family, MetricRegistry}

-- a series that is printed: its labels and its value
unfoldable pub sample_line : Bytes → Bytes → Bytes → Bytes
sample_line name key value = name ++ (key ++ b' ' ∷ (value ++ b'\n' ∷ []))

unfoldable pub help_line : Bytes → Bytes → Bytes
help_line name help =
    if is_empty help then [] else codes "# HELP " ++ (name ++ b' ' ∷ (help ++ b'\n' ∷ []))

unfoldable pub type_line : Bytes → Bool → Bytes
type_line name is_gauge =
    codes "# TYPE "
    ++ (name ++ ((if is_gauge then codes " gauge" else codes " counter") ++ b'\n' ∷ []))

unfoldable pub sample_lines : (ℕ → Bytes) → Bytes → List (Bytes × ℕ) → Bytes
sample_lines show name [] = []
sample_lines show name ((key, v) ∷ series) =
    sample_line name key (show v) ++ sample_lines show name series

module _ (show_double : ℕ → Bytes) where
  unfoldable pub expose_family : Bytes → Family → Bytes
  expose_family name f =
      if is_empty f.counters && is_empty f.gauges
      then []
      else help_line name f.help
        ++ (type_line name f.is_gauge
            ++ (sample_lines to_string name f.counters ++ sample_lines show_double name f.gauges))

  unfoldable pub expose_families : List (Bytes × Family) → Bytes
  expose_families [] = []
  expose_families ((name, f) ∷ families) = expose_family name f ++ expose_families families

  unfoldable pub expose : MetricRegistry → Bytes
  expose r = expose_families r.families
