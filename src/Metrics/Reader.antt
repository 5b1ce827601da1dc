-- ===== src/Metrics/Reader.antt =====
-- What a scraper reads in the text of an exposition, line by line (fix_monitor/src/metrics.cpp).
use fix_mon.Prelude.{
  ℕ, ◌≡◌, refl, ap, ◌∙◌, Bool, false, Option, none, some, List, [], ◌∷◌, ◌++◌, append_assoc, Bytes,
  ◌==◌, if◌then◌else◌, to_string, get_lines, Free, Free-append, All,
}
use fix_mon.Prelude.Numbers.{get_lines-line}
use fix_mon.Metrics.{Labels, Family, MetricRegistry, encode_labels, encode_rest, escape}
use fix_mon.Metrics.Escaping.{unescape-escape}
use fix_mon.Metrics.LabelReader.{Sample, is_name_end, IsLabels, read_series, read_series-encode}
use fix_mon.Metrics.Exposition.{sample_line}

abbrev pub is_line_feed : ℕ → Bool
is_line_feed c = c == b'\n'

abbrev pub is_gap : ℕ → Bool
is_gap c = c == b' '

-- a comment, or a series, its labels and its value
abbrev pub read_sample : Bytes → Option Sample
read_sample [] = none
read_sample (c ∷ cs) = if c == b'#' then none else read_series (c ∷ cs)

abbrev pub onto : Option Sample → List Sample → List Sample
onto none samples = samples
onto (some s) samples = s ∷ samples

abbrev pub collect : List Bytes → List Sample
collect [] = []
collect (l ∷ ls) = onto (read_sample l) (collect ls)

-- What a scraper reads: each line that is no comment is a series, with its labels and the text of
-- its value.
abbrev pub read_samples : Bytes → List Sample
read_samples s = collect (get_lines s)

-- a name of a metric: on one line, no comment, and without a brace or a space
abbrev pub IsName : Bytes → Type 0
IsName [] = ⊥
IsName (c ∷ cs) = ((c == b'#') ≡ false) × Free is_line_feed (c ∷ cs) × Free is_name_end (c ∷ cs)

-- the labels that a series is kept under
abbrev pub IsLabelled : Bytes × ℕ → Type 0
IsLabelled (key, v) = (labels : Labels) × IsLabels labels × (key ≡ encode_labels labels)

pub record IsPlain (entry : Bytes × Family) : Type 0 where
  pub named : IsName entry.0
  pub helped : Free is_line_feed entry.1.help
  pub counted : All IsLabelled entry.1.counters
  pub gauged : All IsLabelled entry.1.gauges

abbrev pub values :
    (ℕ → Bytes) → Bytes → (series : List (Bytes × ℕ)) → All IsLabelled series → List Sample
values show name [] a = []
values show name ((key, v) ∷ series) a = (name, a.0.0, show v) ∷ values show name series a.1

abbrev pub samples_of : (ℕ → Bytes) → (fs : List (Bytes × Family)) → All IsPlain fs → List Sample
samples_of show [] a = []
samples_of show ((name, f) ∷ fs) a =
    values to_string name f.counters a.0.counted
    ++ (values show name f.gauges a.0.gauged ++ samples_of show fs a.1)

-- the counters and gauges of the registry, with the labels that they are kept under
abbrev pub samples : (ℕ → Bytes) → (r : MetricRegistry) → All IsPlain r.families → List Sample
samples show r a = samples_of show r.families a

-- one label, and what follows it
label-Free :
    (k v rest : Bytes)
    → Free is_line_feed k
    → Free is_line_feed rest
    → Free is_line_feed (k ++ (b'=' ∷ (34 ∷ (escape v ++ (34 ∷ rest)))))
label-Free k v rest n r =
    Free-append is_line_feed k (b'=' ∷ (34 ∷ (escape v ++ (34 ∷ rest)))) n (
      refl,
      (refl, Free-append is_line_feed (escape v) (34 ∷ rest) (unescape-escape v).0 (refl, r)),
    )

encode_rest-Free : (labels : Labels) → IsLabels labels → Free is_line_feed (encode_rest labels)
unfolding encode_rest
encode_rest-Free [] l = tt
encode_rest-Free ((k, v) ∷ labels) (n, e, l) =
    (refl, label-Free k v (encode_rest labels) n (encode_rest-Free labels l))

encode_labels-Free : (labels : Labels) → IsLabels labels → Free is_line_feed (encode_labels labels)
unfolding encode_labels
encode_labels-Free [] l = tt
encode_labels-Free ((k, v) ∷ labels) (n, e, l) = (
  refl,
  label-Free k v (encode_rest labels ++ (b'}' ∷ [])) n (
      Free-append is_line_feed (encode_rest labels) (b'}' ∷ []) (encode_rest-Free labels l)
        (refl, tt)),
)

pub read_samples-line :
    (l rest : Bytes)
    → Free is_line_feed l
    → read_samples (l ++ b'\n' ∷ rest) ≡ onto (read_sample l) (read_samples rest)
read_samples-line l rest f = ap collect (get_lines-line l rest f)

pub IsName-Free : (name : Bytes) → IsName name → Free is_line_feed name
IsName-Free [] n = elim n [ ]
IsName-Free (c ∷ cs) n = n.1

read_sample-sample :
    (name value : Bytes) (labels : Labels)
    → IsName name
    → IsLabels labels
    → Free is_gap value
    → read_sample (name ++ (encode_labels labels ++ b' ' ∷ value)) ≡ some (name, labels, value)
read_sample-sample [] value labels n l f = elim n [ ]
read_sample-sample (c ∷ name) value labels n l f =
    rw n.0 (read_series-encode (c ∷ name) value labels n.2 l f)

-- a comment on a line of its own
pub read_samples-comment :
    (l rest : Bytes)
    → Free is_line_feed l
    → read_samples ((b'#' ∷ l) ++ b'\n' ∷ rest) ≡ read_samples rest
read_samples-comment l rest f = read_samples-line (b'#' ∷ l) rest (refl, f)

pub read_samples-sample :
    (name value rest : Bytes) (labels : Labels)
    → IsName name
    → IsLabels labels
    → Free is_line_feed value
    → Free is_gap value
    → read_samples (sample_line name (encode_labels labels) value ++ rest)
      ≡ (name, labels, value) ∷ read_samples rest
unfolding sample_line
read_samples-sample name value rest labels n l v b =
    let key = encode_labels labels in
    let line : Bytes = name ++ (key ++ b' ' ∷ value) in
    let text : sample_line name key value ++ rest ≡ line ++ b'\n' ∷ rest = simp (append_assoc) in
    ap read_samples text
    ∙ read_samples-line line rest (
        Free-append is_line_feed name (key ++ b' ' ∷ value) (IsName-Free name n)
          (Free-append is_line_feed key (b' ' ∷ value) (encode_labels-Free labels l) (refl, v)))
    ∙ ap (λ (o : Option Sample). onto o (read_samples rest))
        (read_sample-sample name value labels n l b)
