-- ===== src/Pipeline/Counting.antt =====
-- Increments of counters over a run (`inc` of fix_monitor/src/main.cpp over metrics.cpp).
use fix_mon.Prelude.{
  ℕ, ◌+◌, ◌%◌, ◌^◌, ◌<◌, ◌≤◌, ◌≡◌, ◌≢◌, refl, sym, ap, ◌∙◌, All, Bool-cases, inl, inr, eq_text_iff,
  eq_text_refl, Bool, true, false, ◌&&◌, List, [], ◌∷◌, Bytes, length, eq_text, if◌then◌else◌,
  arith,
}
use fix_mon.Metrics.{Labels, MetricRegistry, counter, encode_labels}
use fix_mon.Metrics.LabelReader.{IsLabels, encode_labels-injective}
use fix_mon.Metrics.Values.{
  unmoved, IsOrdered, counter_value, turned_away, Answered, counter-Answered, counter_value-changed,
  changed-IsOrdered,
}
use fix_mon.Pipeline.Series.{move_counter, inc}

-- an increment: the family, the labels and by how much
abbrev pub Increment : Type 0
Increment = Bytes × Labels × ℕ

unfoldable pub inc_all : List Increment → MetricRegistry → MetricRegistry
inc_all [] r = r
inc_all ((name, labels, n) ∷ incs) r = inc_all incs (inc name labels n r)

false≢true : false ≢ true
false≢true e = cc

-- the same labels, in the same order
abbrev pub same_labels : Labels → Labels → Bool
same_labels [] [] = true
same_labels [] (y ∷ b) = false
same_labels (x ∷ a) [] = false
same_labels ((k, v) ∷ a) ((j, w) ∷ b) = eq_text k j && (eq_text v w && same_labels a b)

-- what one increment adds to a counter, if the registry has the series or makes it
abbrev pub share : Bytes → Labels → Increment → Bool → ℕ
share name labels (family, other, n) false = 0
share name labels (family, other, n) true =
    if eq_text family name && same_labels other labels then n else 0

-- the same, by the text of the labels
abbrev keyed_share : Bytes → Bytes → Increment → Bool → ℕ
keyed_share name key (family, labels, n) false = 0
keyed_share name key (family, labels, n) true =
    if eq_text family name && eq_text (encode_labels labels) key then n else 0

abbrev refusal : Bool → ℕ
refusal true = 0
refusal false = 1

-- what the increments add to a counter, less those that are refused
abbrev pub added : Bytes → Labels → List Increment → MetricRegistry → ℕ
added name of [] r = 0
added name of ((family, labels, n) ∷ incs) r =
    share name of (family, labels, n) (counter family labels r).0
    + added name of incs (inc family labels n r)

-- how many are refused
abbrev pub refusals : List Increment → MetricRegistry → ℕ
refusals [] r = 0
refusals ((family, labels, n) ∷ incs) r =
    refusal (counter family labels r).0 + refusals incs (inc family labels n r)

record IsCounted (name key : Bytes) (i : Increment) (r : MetricRegistry) (b : Bool)
    (t : MetricRegistry) : Type 0 where
  pub value :
      counter_value name key t ≡ (counter_value name key r + keyed_share name key i b) % 2 ^ 64
  pub away : turned_away t ≡ turned_away r + refusal b
  pub ordered : IsOrdered t

plus_share :
    (here there old n : ℕ) (b : Bool)
    → there ≡ old
    → (if b then here else there) ≡ there
    → old < 2 ^ 64
    → (if b then (here + n) % 2 ^ 64 else there) ≡ (old + (if b then n else 0)) % 2 ^ 64
plus_share here there old n true e f small = omega (arith, e, f)
plus_share here there old n false e f small = omega (arith, e, f)

move_counter-IsCounted :
    (name key family : Bytes) (labels : Labels) (n : ℕ) (r : MetricRegistry)
    (o : Bool × MetricRegistry)
    → Answered r o
    → counter_value name key r < 2 ^ 64
    → IsCounted name key
        (family, labels, n)
        r
        o.0
        (move_counter (λ v. (v + n) % 2 ^ 64) family labels o)
move_counter-IsCounted name key family labels n r (false, t) a small = record {
  value = omega (arith, a.values name key);
  away = a.counted;
  ordered = a.ordered;
}
move_counter-IsCounted name key family labels n r (true, t) a small =
    let enc = encode_labels labels in
    let moved = counter_value-changed family enc name key (λ v. (v + n) % 2 ^ 64) t a.ordered in
    record {
      value =
          moved
          ∙ plus_share (counter_value family enc t) (counter_value name key t)
              (counter_value name key r) n (eq_text family name && eq_text enc key)
              (a.values name key) (unmoved family enc name key t) small;
      away = a.counted;
      ordered = changed-IsOrdered family enc (λ v. (v + n) % 2 ^ 64) t a.ordered;
    }

inc-IsCounted :
    (name key : Bytes) (i : Increment) (r : MetricRegistry)
    → IsOrdered r
    → counter_value name key r < 2 ^ 64
    → turned_away r + 1 < 2 ^ 64
    → IsCounted name key i r (counter i.0 i.1 r).0 (inc i.0 i.1 i.2 r)
unfolding inc
inc-IsCounted name key (family, labels, n) r o small room =
    move_counter-IsCounted name key family labels n r (counter family labels r)
      (counter-Answered family labels r o room) small

refusal-le : (b : Bool) → refusal b ≤ 1
refusal-le true = omega arith
refusal-le false = omega arith

same_labels_refl : (a : Labels) → same_labels a a ≡ true
same_labels_refl [] = refl
same_labels_refl ((k, v) ∷ a) = rw (eq_text_refl k, eq_text_refl v, same_labels_refl a)

same_labels_eq : (a b : Labels) → same_labels a b ≡ true → a ≡ b
same_labels_eq [] [] e = refl
same_labels_eq [] (y ∷ b) e = cc
same_labels_eq (x ∷ a) [] e = cc
same_labels_eq ((k, v) ∷ a) ((j, w) ∷ b) e =
    let first : k ≡ j = (eq_text_iff k j).0 (ground arith) in
    let second : v ≡ w = (eq_text_iff v w).0 (ground arith) in
    let rest = same_labels_eq a b (ground arith) in cc (first, second, rest)

-- different labels have different texts
same_text :
    (a b : Labels)
    → IsLabels a
    → IsLabels b
    → eq_text (encode_labels a) (encode_labels b) ≡ same_labels a b
same_text a b l m = elim (Bool-cases (same_labels a b)) [
  | inl e ↦
      (eq_text_iff (encode_labels a) (encode_labels b)).1
        (ap (λ (x : Labels). encode_labels x) (same_labels_eq a b e))
      ∙ sym e
  | inr n ↦ elim (Bool-cases (eq_text (encode_labels a) (encode_labels b))) [
    | inr f ↦ f ∙ sym n
    | inl t ↦
        let same =
          encode_labels-injective a b l m ((eq_text_iff (encode_labels a) (encode_labels b)).0 t) in
        absurd (false≢true (sym n ∙ ap (λ (x : Labels). same_labels x b) same ∙ same_labels_refl b))
  ]
]

same_share :
    (name : Bytes) (of : Labels) (i : Increment) (b : Bool)
    → IsLabels of
    → IsLabels i.1
    → keyed_share name (encode_labels of) i b ≡ share name of i b
same_share name of (family, labels, n) false l m = refl
same_share name of (family, labels, n) true l m =
    ap (λ t. if eq_text family name && t then n else 0) (same_text labels of m l)

-- Over any run of increments a counter holds what it held before and what the increments of its
-- family with the same labels add, modulo 2 ^ 64; no other increment moves it. An increment whose
-- series is refused moves no counter and is counted as one rejected or redacted series. The names
-- of labels are on one line and have no equals sign, the registry has its maps in order, and fewer
-- than 2 ^ 64 series are refused.
pub inc_all-added :
    (name : Bytes) (labels : Labels) (incs : List Increment) (r : MetricRegistry)
    → IsLabels labels
    → All (λ (i : Increment). IsLabels i.1) incs
    → IsOrdered r
    → counter_value name (encode_labels labels) r < 2 ^ 64
    → turned_away r + length incs < 2 ^ 64
    → (counter_value name (encode_labels labels) (inc_all incs r)
        ≡ (counter_value name (encode_labels labels) r + added name labels incs r) % 2 ^ 64)
      × (turned_away (inc_all incs r) ≡ turned_away r + refusals incs r)
unfolding inc_all
inc_all-added name of [] r l ls o small room = (omega arith, omega arith)
inc_all-added name of ((family, labels, n) ∷ incs) r l ls o small room =
    let c = inc-IsCounted name (encode_labels of) (family, labels, n) r o small (omega arith) in
    let le = refusal-le (counter family labels r).0 in
    let same = same_share name of (family, labels, n) (counter family labels r).0 l ls.0 in
    let t = inc family labels n r in
    let (value, away) =
      inc_all-added name of incs t l ls.1 c.ordered (omega (arith, c.value))
        (omega (arith, c.away, le)) in
    (omega (arith, value, c.value, same), omega (arith, away, c.away))
