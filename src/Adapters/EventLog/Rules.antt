-- ===== src/Adapters/EventLog/Rules.antt =====
-- The rule table of fix_monitor/src/event_log_adapter.cpp, and what `parse_line` makes of a line.
use fix_mon.Prelude.{
  ℕ, ℤ, ◌≡◌, ◌≢◌, ◌↔◌, ◌⊎◌, inl, inr, refl, ap, sym, subst, ◌∙◌, ◌||◌, Bool, true, false, Option,
  none, some, List, [], ◌∷◌, ◌++◌, All, Bytes, arith, Option-cases,
}
use fix_mon.Event.{Event, SessionEventType}
use fix_mon.Config.Session.{SessionConfig}
use fix_mon.FixParser.{Tm, split_log_line}
use fix_mon.Redact.Prose.{redact_free_text}
use fix_mon.Adapters.EventLog.{
  Rule, rules, Match, group, fresh_event, by_rule, apply_rules, narrate, parse_line, is_unparsed,
}

none≢some {ℓ} : {A : Type ℓ} {a : A} → none ≢ some a
none≢some e = cc

some-injective {ℓ} : {A : Type ℓ} {a b : A} → some a ≡ some b → a ≡ b
some-injective e = cc

false≢true : false ≢ true
false≢true e = cc

abbrev Named : List Rule → Type 0
Named rs = All (λ r. is_unparsed r.type ≡ false) rs

abbrev any_unparsed : List Rule → Bool
any_unparsed [] = false
any_unparsed (r ∷ rs) = is_unparsed r.type || any_unparsed rs

any_unparsed-Named : (rs : List Rule) → any_unparsed rs ≡ false → Named rs
any_unparsed-Named [] h = tt
any_unparsed-Named (r ∷ rs) h = (ground arith, any_unparsed-Named rs (ground arith))

rules-Named : Named rules
unfolding rules
rules-Named = any_unparsed-Named rules refl

module _ (regex_search : Bytes → Bytes → Option Match) (stoull : Bytes → Option ℕ) where
  -- no rule of the list matches
  abbrev pub Unmatched : Bytes → List Rule → Type 0
  Unmatched body rs = All (λ r. regex_search r.pattern body ≡ none) rs

  abbrev answer : List Rule → Bytes → Event → Event
  answer = apply_rules regex_search stoull

  answer-skip :
      (r : Rule) (rs : List Rule) (body : Bytes) (out : Event)
      → regex_search r.pattern body ≡ none
      → answer (r ∷ rs) body out ≡ answer rs body out
  unfolding apply_rules by_rule
  answer-skip r rs body out n = rw (n, apply_rules)

  answer-hit :
      (r : Rule) (rs : List Rule) (body : Bytes) (m : Match) (out : Event)
      → regex_search r.pattern body ≡ some m
      → answer (r ∷ rs) body out ≡ by_rule regex_search stoull r m out
  unfolding apply_rules by_rule
  answer-hit r rs body m out e = rw (e, apply_rules)

  by_rule-named :
      (r : Rule) (m : Match) (out : Event)
      → (by_rule regex_search stoull r m out).session_event ≡ r.type
  unfolding by_rule
  by_rule-named r m out = refl

  answer_unparsed :
      (rs : List Rule) (body : Bytes) (out : Event)
      → Named rs
      → ((answer rs body out).session_event ≡ SessionEventType.unparsed) ↔ Unmatched body rs
  unfolding apply_rules
  answer_unparsed [] body out named = (λ e. tt, λ u. refl)
  answer_unparsed (r ∷ rs) body out named = elim (Option-cases (regex_search r.pattern body)) [
    | inl n ↦
        let rest = answer_unparsed rs body out named.1 in
        let skip = ap (λ (ev : Event). ev.session_event) (answer-skip r rs body out n) in
        (λ e. (n, rest.0 (sym skip ∙ e)), λ u. skip ∙ rest.1 u.1)
    | inr (m, e) ↦
        let hit = ap (λ (ev : Event). ev.session_event) (answer-hit r rs body m out e) in
        (
          λ u.
              absurd
                (false≢true (sym named.0 ∙ ap is_unparsed (sym (hit ∙ by_rule-named r m out) ∙ u))),
          λ u. absurd (none≢some (sym u.0 ∙ e)),
        )
  ]

  -- what the text group of the first rule of the list that matches has captured
  abbrev pub IsCaptured : List Rule → Bytes → Bytes → Type 0
  IsCaptured rs body prose =
      (before : List Rule) × (after : List Rule) × (r : Rule) × (m : Match) × (rs
        ≡ before ++ r ∷ after)
      × Unmatched body before
      × (regex_search r.pattern body ≡ some m)
      × (prose ≡ group m r.text_group)

  -- where the texts of an event come from
  abbrev pub Scrubbed : List Rule → Bytes → Bytes → Event → Type 0
  Scrubbed rs line body ev =
      (ev.raw ≡ redact_free_text line)
      × ((prose : Bytes) × (ev.text ≡ redact_free_text prose)
          × ((prose ≡ body) ⊎ IsCaptured rs body prose))

  module _ (timegm : Tm → ℤ) (cfg : SessionConfig) (now : ℤ) where
    -- A line is reported as unparsed exactly if no rule matches it: new wording is noticed, and
    -- nothing that is known is.
    pub parse_line_unparsed :
        (line : Bytes) (ev : Event)
        → parse_line regex_search stoull timegm cfg now line ≡ some ev
        → (ev.session_event ≡ SessionEventType.unparsed)
          ↔ Unmatched (split_log_line timegm line).1 rules
    unfolding parse_line narrate
    parse_line_unparsed [] ev e = cc
    parse_line_unparsed (c ∷ cs) ev e =
        subst
          (λ (o : Event).
            (o.session_event ≡ SessionEventType.unparsed)
            ↔ Unmatched (split_log_line timegm (c ∷ cs)).1 rules)
          (some-injective e)
          (answer_unparsed rules (split_log_line timegm (c ∷ cs)).1
            (fresh_event cfg now (split_log_line timegm (c ∷ cs)).0 (c ∷ cs)
              (split_log_line timegm (c ∷ cs)).1)
            rules-Named)
