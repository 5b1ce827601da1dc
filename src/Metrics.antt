-- ===== src/Metrics.antt =====
-- fix_monitor/src/metrics.cpp and include/fixmon/metrics.hpp: the registry of series. A method holds
-- the mutex where it changes the families (`counter` and `gauge` look again under the exclusive
-- lock), so a method is one step. A series is a pointer in the source and a value in its family
-- here; the values of gauges are the bits of a double.
pub mod Declarations
pub mod Cap
pub mod Escaping
pub mod Exposition
pub mod LabelReader
pub mod Reader
pub mod Scrape
pub mod Plain
pub mod Values
mod Tests
use fix_mon.Prelude.{
  ℕ, ◌+◌, ◌%◌, ◌^◌, Bool, true, false, ◌||◌, Option, none, some, List, [], ◌∷◌, ◌++◌, Bytes, codes,
  length, leb, ◌==◌, if◌then◌else◌, is_empty,
}
use fix_mon.Prelude.Dict
use fix_mon.Redact.Keys.{is_sensitive_key}
use Declarations.{declarations}

abbrev pub Labels : Type 0
Labels = List (Bytes × Bytes)

pub record Family : Type 0 where
  pub help : Bytes
  pub is_gauge : Bool
  pub counters : List (Bytes × ℕ)
  pub gauges : List (Bytes × ℕ)

-- `Family{}`
abbrev pub empty_family : Family
empty_family = record { help = []; is_gauge = false; counters = []; gauges = [] }

pub record MetricRegistry : Type 0 where
  pub families : List (Bytes × Family)
  pub max_series : ℕ
  pub rejected : ℕ
  pub redacted_series : ℕ

unfoldable pub new_metrics : ℕ → MetricRegistry
new_metrics max = record { families = []; max_series = max; rejected = 0; redacted_series = 0 }

-- the loop of `refuse_sensitive`
unfoldable pub names_secret : Labels → Bool
names_secret [] = false
names_secret ((key, value) ∷ labels) = is_sensitive_key key || names_secret labels

-- `is_gauge` is false for a counter
unfoldable pub declare : Bytes × Bool × Bytes → MetricRegistry → MetricRegistry
declare (name, gauge?, help) r = record r {
  families =
      Dict.alter name empty_family (λ f. record f { help = help; is_gauge = gauge? }) r.families;
}

unfoldable pub declare_each : List (Bytes × Bool × Bytes) → MetricRegistry → MetricRegistry
declare_each [] r = r
declare_each (d ∷ ds) r = declare_each ds (declare d r)

unfoldable pub declare_all_metrics : MetricRegistry → MetricRegistry
declare_all_metrics = declare_each declarations

-- escaped per exposition format
unfoldable pub escape : Bytes → Bytes
escape [] = []
escape (c ∷ cs) =
    if c == 34 || c == 92
    then 92 ∷ c ∷ escape cs
    else if c == b'\n'
    then 92 ∷ b'n' ∷ escape cs
    else c ∷ escape cs

-- the labels behind the first, a comma before each
unfoldable pub encode_rest : Labels → Bytes
encode_rest [] = []
encode_rest ((k, v) ∷ labels) = b',' ∷ k ++ (b'=' ∷ 34 ∷ (escape v ++ (34 ∷ encode_rest labels)))

unfoldable pub encode_labels : Labels → Bytes
encode_labels [] = []
encode_labels ((k, v) ∷ labels) =
    b'{' ∷ (k ++ (b'=' ∷ 34 ∷ (escape v ++ (34 ∷ (encode_rest labels ++ (b'}' ∷ []))))))

abbrev pub size : Family → ℕ
size f = length f.counters + length f.gauges

abbrev pub total : List (Bytes × Family) → ℕ
total [] = 0
total ((n, f) ∷ m) = size f + total m

unfoldable pub series_count : MetricRegistry → ℕ
series_count r = total r.families

abbrev family_of : MetricRegistry → Bytes → Family
family_of r name = Dict.value_or (Dict.lookup name r.families) empty_family

abbrev refused : MetricRegistry → MetricRegistry
refused r = record r { redacted_series = (r.redacted_series + 1) % 2 ^ 64 }

abbrev full : MetricRegistry → MetricRegistry
full r = record r { rejected = (r.rejected + 1) % 2 ^ 64 }

-- `families_[name]`, changed
abbrev at_family : Bytes → (Family → Family) → MetricRegistry → MetricRegistry
at_family name f r = record r { families = Dict.alter name empty_family f r.families }

-- a series that is not there yet
unfoldable pub new_counter : Bytes → Bytes → MetricRegistry → Bool × MetricRegistry
new_counter name key r =
    if leb r.max_series (total r.families) then (false, full (at_family name (λ f. f) r)) else (
      true,
      at_family name (λ f. record f { counters = Dict.alter key 0 (λ v. v) f.counters }) r,
    )

unfoldable pub new_gauge : Bytes → Bytes → MetricRegistry → Bool × MetricRegistry
new_gauge name key r =
    if leb r.max_series (total r.families)
    then (false, full (at_family name (λ f. record f { is_gauge = true }) r))
    else (
      true,
      at_family name
          (λ f. record f { is_gauge = true; gauges = Dict.alter key 0 (λ v. v) f.gauges }) r,
    )

-- Whether a series is returned (false stands for `nullptr`), and the registry afterwards.
unfoldable pub counter : Bytes → Labels → MetricRegistry → Bool × MetricRegistry
counter name labels r =
    if names_secret labels
    then (false, refused r)
    else elim (Dict.lookup (encode_labels labels) (family_of r name).counters) [
      | some v ↦ (true, r)
      | none ↦ new_counter name (encode_labels labels) r
    ]

unfoldable pub gauge : Bytes → Labels → MetricRegistry → Bool × MetricRegistry
gauge name labels r =
    if names_secret labels
    then (false, refused r)
    else elim (Dict.lookup (encode_labels labels) (family_of r name).gauges) [
      | some v ↦ (true, r)
      | none ↦ new_gauge name (encode_labels labels) r
    ]
