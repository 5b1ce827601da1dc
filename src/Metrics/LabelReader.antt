-- ===== src/Metrics/LabelReader.antt =====
-- The labels of a series, read by the format of the exposition: what `encode_labels` of
-- fix_monitor/src/metrics.cpp writes, read back.
use fix_mon.Prelude.{
  ℕ, ◌≡◌, refl, sym, ap, ◌∙◌, Bool, true, false, ◌||◌, Option, none, some, [], ◌∷◌, ◌++◌,
  append_assoc, append-nil, Bytes, ◌==◌, ==_iff, if◌then◌else◌, Free, Bool-cases, inl, inr, arith,
}
use fix_mon.Metrics.{Labels, encode_labels, encode_rest, escape}

-- the rest of a label name, the rest of its value, the labels behind it, and what follows
abbrev pub Part : Type 0
Part = Bytes × Bytes × Labels × Bytes

abbrev onto_name : ℕ → Option Part → Option Part
onto_name c none = none
onto_name c (some (k, v, labels, rest)) = some (c ∷ k, v, labels, rest)

abbrev onto_value : ℕ → Option Part → Option Part
onto_value c none = none
onto_value c (some (k, v, labels, rest)) = some (k, c ∷ v, labels, rest)

abbrev add_label : Option Part → Option Part
add_label none = none
add_label (some (k, v, labels, rest)) = some ([], [], (k, v) ∷ labels, rest)

-- a backslash stands before a quote, a backslash and the `n` of a line feed
abbrev unescaped : ℕ → ℕ
unescaped d = if d == b'n' then b'\n' else d

-- Reads inside a quoted value, or else inside a label name, up to the closing brace.
abbrev pub scan : Bool → Bytes → Option Part
scan quoted [] = none
scan quoted (c ∷ []) = none
scan false (c ∷ (d ∷ cs)) =
    let value = scan true cs in
    let next = scan false (d ∷ cs) in
    if c == b'=' then (if d == 34 then value else none) else onto_name c next
scan true (c ∷ (d ∷ cs)) =
    let escaped = scan true cs in
    let label = scan false cs in
    let next = scan true (d ∷ cs) in
    if c == 92
    then onto_value (unescaped d) escaped
    else if c == 34
    then (if d == b',' then add_label label else if d == b'}' then some ([], [], [], cs) else none)
    else onto_value c next

abbrev pub is_equals : ℕ → Bool
is_equals c = c == b'='

abbrev onto_names : Bytes → Option Part → Option Part
onto_names [] o = o
onto_names (c ∷ k) o = onto_name c (onto_names k o)

abbrev onto_values : Bytes → Option Part → Option Part
onto_values [] o = o
onto_values (c ∷ v) o = onto_value c (onto_values v o)

scan_name :
    (c : ℕ) (t : Bytes) → (c == b'=') ≡ false → scan false (c ∷ t) ≡ onto_name c (scan false t)
scan_name c [] e = refl
scan_name c (d ∷ t) e = rw e

scan_plain :
    (c : ℕ) (t : Bytes)
    → (c == 92) ≡ false
    → (c == 34) ≡ false
    → scan true (c ∷ t) ≡ onto_value c (scan true t)
scan_plain c [] e f = refl
scan_plain c (d ∷ t) e f = rw (e, f)

scan_names :
    (k t : Bytes)
    → Free is_equals k
    → scan false (k ++ (b'=' ∷ (34 ∷ t))) ≡ onto_names k (scan true t)
scan_names [] t f = refl
scan_names (c ∷ k) t f =
    scan_name c (k ++ (b'=' ∷ (34 ∷ t))) f.0 ∙ ap (onto_name c) (scan_names k t f.1)

scan_values : (v t : Bytes) → scan true (escape v ++ t) ≡ onto_values v (scan true t)
unfolding escape
scan_values [] t = refl
scan_values (c ∷ v) t = elim (Bool-cases (c == 34)) [
  | inl e ↦ rw ((==_iff c 34).0 e) (ap (onto_value 34) (scan_values v t))
  | inr e ↦ elim (Bool-cases (c == 92)) [
    | inl f ↦ rw ((==_iff c 92).0 f) (ap (onto_value 92) (scan_values v t))
    | inr f ↦ elim (Bool-cases (c == b'\n')) [
      | inl g ↦ rw ((==_iff c b'\n').0 g) (ap (onto_value b'\n') (scan_values v t))
      | inr g ↦
          rw (e, f, g) (scan_plain c (escape v ++ t) f e ∙ ap (onto_value c) (scan_values v t))
    ]
  ]
]

added_names :
    (k k' v : Bytes) (labels : Labels) (rest : Bytes)
    → onto_names k (some (k', v, labels, rest)) ≡ some (k ++ k', v, labels, rest)
added_names [] k' v labels rest = refl
added_names (c ∷ k) k' v labels rest = ap (onto_name c) (added_names k k' v labels rest)

added_values :
    (v k v' : Bytes) (labels : Labels) (rest : Bytes)
    → onto_values v (some (k, v', labels, rest)) ≡ some (k, v ++ v', labels, rest)
added_values [] k v' labels rest = refl
added_values (c ∷ v) k v' labels rest = ap (onto_value c) (added_values v k v' labels rest)

-- one label, and what the closing quote of its value leads to
scan_label :
    (k v t : Bytes) (labels : Labels) (rest : Bytes)
    → Free is_equals k
    → scan true (34 ∷ t) ≡ some ([], [], labels, rest)
    → scan false (k ++ (b'=' ∷ (34 ∷ (escape v ++ (34 ∷ t))))) ≡ some (k, v, labels, rest)
scan_label k v t labels rest f e =
    scan_names k (escape v ++ (34 ∷ t)) f
    ∙ ap (onto_names k) (
        scan_values v (34 ∷ t)
        ∙ ap (onto_values v) e
        ∙ added_values v [] [] labels rest
        ∙ ap (λ (w : Bytes). some ([], w, labels, rest)) (append-nil v))
    ∙ added_names k [] v labels rest
    ∙ ap (λ (w : Bytes). some (w, v, labels, rest)) (append-nil k)

-- names of labels: on one line, without an equals sign
abbrev pub IsLabels : Labels → Type 0
IsLabels [] = Unit
IsLabels ((k, v) ∷ labels) = Free (λ c. c == b'\n') k × Free is_equals k × IsLabels labels

scan_rest :
    (labels : Labels) (rest : Bytes)
    → IsLabels labels
    → scan true (34 ∷ (encode_rest labels ++ (b'}' ∷ rest))) ≡ some ([], [], labels, rest)
unfolding encode_rest
scan_rest [] rest l = refl
scan_rest ((k, v) ∷ labels) rest (n, e, l) =
    let t : Bytes = encode_rest labels ++ (b'}' ∷ rest) in
    let text : (k ++ (b'=' ∷ (34 ∷ (escape v ++ (34 ∷ encode_rest labels))))) ++ (b'}' ∷ rest)
        ≡ k ++ (b'=' ∷ (34 ∷ (escape v ++ (34 ∷ t)))) =
      simp (append_assoc) in
    ap (λ (s : Bytes). scan true (34 ∷ (b',' ∷ s))) text
    ∙ ap add_label (scan_label k v t labels rest e (scan_rest labels rest l))

-- a series that is read: its name, its labels and the text of its value
abbrev pub Sample : Type 0
Sample = Bytes × Labels × Bytes

-- the value ends where a time stamp would follow it
abbrev until_gap : Bytes → Bytes
until_gap [] = []
until_gap (c ∷ cs) = if c == b' ' then [] else c ∷ until_gap cs

abbrev behind_labels : Option Part → Option Sample
behind_labels none = none
behind_labels (some (k, v, labels, [])) = none
behind_labels (some (k, v, labels, c ∷ rest)) =
    if c == b' ' then some ([], (k, v) ∷ labels, until_gap rest) else none

abbrev extend_name : ℕ → Option Sample → Option Sample
extend_name c none = none
extend_name c (some (name, labels, value)) = some (c ∷ name, labels, value)

-- The name of a series ends at an opening brace, which labels follow, or at a space.
abbrev pub read_series : Bytes → Option Sample
read_series [] = none
read_series (c ∷ cs) =
    let next = read_series cs in
    if c == b'{'
    then behind_labels (scan false cs)
    else if c == b' '
    then some ([], [], until_gap cs)
    else extend_name c next

abbrev pub is_name_end : ℕ → Bool
is_name_end c = c == b'{' || c == b' '

until_gap-Free : (value : Bytes) → Free (λ c. c == b' ') value → until_gap value ≡ value
until_gap-Free [] f = refl
until_gap-Free (c ∷ value) f = rw (f.0, until_gap-Free value f.1)

read_series-labels :
    (labels : Labels) (value : Bytes)
    → IsLabels labels
    → Free (λ c. c == b' ') value
    → read_series (encode_labels labels ++ (b' ' ∷ value)) ≡ some ([], labels, value)
unfolding encode_labels
read_series-labels [] value l f = rw (until_gap-Free value f)
read_series-labels ((k, v) ∷ labels) value (n, e, l) f =
    let t : Bytes = encode_rest labels ++ (b'}' ∷ (b' ' ∷ value)) in
    let text : (k ++ (b'=' ∷ (34 ∷ (escape v ++ (34 ∷ (encode_rest labels ++ (b'}' ∷ [])))))))
          ++ (b' ' ∷ value)
        ≡ k ++ (b'=' ∷ (34 ∷ (escape v ++ (34 ∷ t)))) =
      simp (append_assoc) in
    ap (λ (s : Bytes). behind_labels (scan false s)) text
    ∙ ap behind_labels
        (scan_label k v t labels (b' ' ∷ value) e (scan_rest labels (b' ' ∷ value) l))
    ∙ ap (λ (w : Bytes). some ([], (k, v) ∷ labels, w)) (until_gap-Free value f)

-- A series is read back with its labels, however many, and whatever their values say.
pub read_series-encode :
    (name value : Bytes) (labels : Labels)
    → Free is_name_end name
    → IsLabels labels
    → Free (λ c. c == b' ') value
    → read_series (name ++ (encode_labels labels ++ (b' ' ∷ value))) ≡ some (name, labels, value)
read_series-encode [] value labels n l f = read_series-labels labels value l f
read_series-encode (c ∷ name) value labels n l f =
    let brace : (c == b'{') ≡ false = ground (arith, n.0) in
    let gap : (c == b' ') ≡ false = ground (arith, n.0) in
    rw (brace, gap) (ap (extend_name c) (read_series-encode name value labels n.1 l f))

-- So different labels have different texts.
pub encode_labels-injective :
    (a b : Labels) → IsLabels a → IsLabels b → encode_labels a ≡ encode_labels b → a ≡ b
encode_labels-injective a b l m e =
    let read =
      sym (read_series-labels a [] l tt)
      ∙ ap (λ (s : Bytes). read_series (s ++ (b' ' ∷ []))) e
      ∙ read_series-labels b [] m tt in
    cc (read)
