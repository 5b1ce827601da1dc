-- ===== src/Metrics/Scrape.antt =====
-- A scrape read back: the samples in the text of `expose` (fix_monitor/src/metrics.cpp).
use fix_mon.Prelude.{
  ℕ, ◌≡◌, refl, ap, ◌∙◌, Bool, true, false, ◌&&◌, List, [], ◌∷◌, ◌++◌, append_assoc, arith, Bytes,
  codes, is_empty, if◌then◌else◌, to_string, get_lines, Free, Free-append, All, Bool-cases, inl,
  inr, find_index, Free-find_index, is_digit,
}
use fix_mon.Prelude.Digits.{Free-to_string, not_byte}
use fix_mon.Metrics.{Family, MetricRegistry}
use fix_mon.Metrics.Exposition.{
  sample_line, help_line, type_line, sample_lines, expose_family, expose_families, expose,
}
use fix_mon.Metrics.LabelReader.{Sample}
use fix_mon.Metrics.Reader.{
  is_line_feed, is_gap, read_samples, values, samples_of, samples, IsName, IsLabelled, IsPlain,
  IsName-Free, read_samples-comment, read_samples-sample,
}

module _ (name : Bytes) (n : IsName name) where
  read_samples-help :
      (help rest : Bytes)
      → Free is_line_feed help
      → read_samples (help_line name help ++ rest) ≡ read_samples rest
  unfolding help_line find_index
  read_samples-help help rest h = elim (Bool-cases (is_empty help)) [
    | inl e ↦ rw e
    | inr e ↦
        let line : Bytes = codes " HELP " ++ (name ++ b' ' ∷ help) in
        let text : help_line name help ++ rest ≡ (b'#' ∷ line) ++ b'\n' ∷ rest =
          rw e (simp (append_assoc)) in
        ap read_samples text
        ∙ read_samples-comment line rest (
            Free-append is_line_feed (codes " HELP ") (name ++ b' ' ∷ help)
              (Free-find_index is_line_feed (codes " HELP ") refl)
              (Free-append is_line_feed name (b' ' ∷ help) (IsName-Free name n) (refl, h)))
  ]

  kind : (g : Bool) → Free is_line_feed (if g then codes " gauge" else codes " counter")
  unfolding find_index
  kind true = Free-find_index is_line_feed (codes " gauge") refl
  kind false = Free-find_index is_line_feed (codes " counter") refl

  read_samples-type :
      (g : Bool) (rest : Bytes) → read_samples (type_line name g ++ rest) ≡ read_samples rest
  unfolding type_line find_index
  read_samples-type g rest =
      let kind_text : Bytes = if g then codes " gauge" else codes " counter" in
      let line : Bytes = codes " TYPE " ++ (name ++ kind_text) in
      let text : type_line name g ++ rest ≡ (b'#' ∷ line) ++ b'\n' ∷ rest = simp (append_assoc) in
      ap read_samples text
      ∙ read_samples-comment line rest (
          Free-append is_line_feed (codes " TYPE ") (name ++ kind_text)
            (Free-find_index is_line_feed (codes " TYPE ") refl)
            (Free-append is_line_feed name kind_text (IsName-Free name n) (kind g)))

  read_samples-lines :
      (show : ℕ → Bytes)
      → ((v : ℕ) → Free is_line_feed (show v) × Free is_gap (show v))
      → (series : List (Bytes × ℕ)) (rest : Bytes) (a : All IsLabelled series)
      → read_samples (sample_lines show name series ++ rest)
        ≡ values show name series a ++ read_samples rest
  unfolding sample_lines
  read_samples-lines show plain [] rest a = refl
  read_samples-lines show plain ((key, v) ∷ series) rest a =
      ap read_samples
        (append_assoc (sample_line name key (show v)) (sample_lines show name series) rest)
      ∙ ap
          (λ (k : Bytes).
            read_samples (sample_line name k (show v) ++ (sample_lines show name series ++ rest)))
          a.0.2
      ∙ read_samples-sample name (show v) (sample_lines show name series ++ rest) a.0.0 n a.0.1
          (plain v).0 (plain v).1
      ∙ ap (λ (l : List Sample). (name, a.0.0, show v) ∷ l)
          (read_samples-lines show plain series rest a.1)

pub digits_plain : (v : ℕ) → Free is_line_feed (to_string v) × Free is_gap (to_string v)
unfolding is_digit
digits_plain v = (
  Free-to_string is_line_feed v (λ c d. not_byte b'\n' c d refl),
  Free-to_string is_gap v (λ c d. not_byte b' ' c d refl),
)

left_true : (a b : Bool) → (a && b) ≡ true → a ≡ true
left_true a b e = ground arith

right_true : (a b : Bool) → (a && b) ≡ true → b ≡ true
right_true a b e = ground arith

values_empty :
    (show : ℕ → Bytes) (name : Bytes) (series : List (Bytes × ℕ)) (a : All IsLabelled series)
    → is_empty series ≡ true
    → values show name series a ≡ []
values_empty show name [] a e = refl
values_empty show name ((k, v) ∷ series) a e = cc

module _ (show_double : ℕ → Bytes)
    (plain : (v : ℕ) → Free is_line_feed (show_double v) × Free is_gap (show_double v)) where
  read_samples-family :
      (name : Bytes) (f : Family) (rest : Bytes) (p : IsPlain (name, f))
      → read_samples (expose_family show_double name f ++ rest)
        ≡ values to_string name f.counters p.counted
          ++ (values show_double name f.gauges p.gauged ++ read_samples rest)
  unfolding expose_family
  read_samples-family name f rest p = elim (Bool-cases (is_empty f.counters && is_empty f.gauges)) [
    | inl e ↦ rw (
      e,
      values_empty to_string name f.counters p.counted (left_true _ _ e),
      values_empty show_double name f.gauges p.gauged (right_true _ _ e),
    )
    | inr e ↦
        let counts : Bytes = sample_lines to_string name f.counters in
        let tail : Bytes = sample_lines show_double name f.gauges ++ rest in
        let text : expose_family show_double name f ++ rest
            ≡ help_line name f.help ++ (type_line name f.is_gauge ++ (counts ++ tail)) =
          rw e (simp (append_assoc)) in
        ap read_samples text
        ∙ read_samples-help name p.named f.help (type_line name f.is_gauge ++ (counts ++ tail))
            p.helped
        ∙ read_samples-type name p.named f.is_gauge (counts ++ tail)
        ∙ read_samples-lines name p.named to_string digits_plain f.counters tail p.counted
        ∙ ap (λ (l : List Sample). values to_string name f.counters p.counted ++ l)
            (read_samples-lines name p.named show_double plain f.gauges rest p.gauged)
  ]

  read_samples-families :
      (fs : List (Bytes × Family)) (a : All IsPlain fs)
      → read_samples (expose_families show_double fs) ≡ samples_of show_double fs a
  unfolding expose_families get_lines
  read_samples-families [] a = refl
  read_samples-families ((name, f) ∷ fs) a =
      read_samples-family name f (expose_families show_double fs) a.0
      ∙ ap
          (λ (l : List Sample).
            values to_string name f.counters a.0.counted
            ++ (values show_double name f.gauges a.0.gauged ++ l))
          (read_samples-families fs a.1)

  -- A scraper that reads the text of `expose` finds every counter and every gauge of the registry
  -- with its labels and its value, in their order, and nothing else. It needs names and help texts
  -- without a line feed, names that are not empty, do not start as a comment and have no brace or
  -- space, series kept under encoded labels, and doubles written without a line feed or space.
  pub read_samples-expose :
      (r : MetricRegistry) (a : All IsPlain r.families)
      → read_samples (expose show_double r) ≡ samples show_double r a
  unfolding expose
  read_samples-expose r a = read_samples-families r.families a
