-- ===== src/Redact/Tests.antt =====
-- Runs of the redaction, and concrete uses of the theorems about it.
use fix_mon.Prelude.{
  ◌≡◌, ◌⊎◌, ◌≢◌, refl, true, false, none, List, [], ◌∷◌, ◌++◌, map, Bytes, codes, length, one_of,
  arith, eq_text, to_lower, ap, not, is_digit, is_alnum, find_index, find_text, starts_with,
  drop_while, drop_while_end, Free-find_index,
}
use fix_mon.Body.{Field, encode}
use fix_mon.Redact.Keys.{
  redacted, masked, fold, listed, is_sensitive_key, is_sensitive_name, is_stop_word, is_space,
  strip_punct, contains, holds,
}
use fix_mon.Redact.Tags.{
  is_credential_tag, is_opaque_text_tag, is_business_tag, is_fix_separator, parse_tag,
  parse_tag_from, data_tag_for_length_tag, is_free_text_tag, diagnostic,
}
use fix_mon.Redact.Prose.{
  redact_free_text, judge, assigned_at, plain_token, scrub_loop, index_or_end, in_window,
}
use fix_mon.Redact.Words.{Word, IsWord, Separated, scrub_words}
use fix_mon.Redact.Words
use fix_mon.Redact.Words.Split.{redact_free_text_words}
use fix_mon.Redact.Words.Window.{redact_free_text_value}
use fix_mon.Redact.MaskBody.{
  mask_fix_body, mask_loop, field_end, announced, separator_end, expect_after, tag_at, declared,
  written_field, mask_value,
}
use fix_mon.Redact.Fields.{tag_of}
use fix_mon.Redact.Fields.Masking.{masked_field, mask_fix_body-encode, masked_field_policy}
use fix_mon.Redact.Spelling.{Respelled, is_sensitive_key-Respelled}

abbrev login : List Field
login =
    record { tag = codes "35"; value = codes "A"; sep = 1 }
    ∷ record { tag = codes "95"; value = codes "3"; sep = 1 }
    ∷ record { tag = codes "96"; value = codes "p|w"; sep = 1 }
    ∷ record { tag = codes "554"; value = codes "hunter2"; sep = 1 }
    ∷ []

mask_fix_body-login :
    mask_fix_body (encode login) true
    ≡ encode (
        record { tag = codes "35"; value = codes "A"; sep = 1 }
        ∷ record { tag = codes "95"; value = redacted; sep = 1 }
        ∷ record { tag = codes "96"; value = redacted; sep = 1 }
        ∷ record { tag = codes "554"; value = redacted; sep = 1 }
        ∷ [])
unfolding mask_fix_body mask_loop field_end announced separator_end index_or_end is_fix_separator
    expect_after data_tag_for_length_tag tag_at parse_tag parse_tag_from is_digit declared
    written_field mask_value is_credential_tag is_opaque_text_tag is_business_tag is_free_text_tag
mask_fix_body-login = refl

mask_fix_body-encode_example :
    mask_fix_body (encode login) true ≡ encode (map (masked_field true) login)
unfolding parse_tag is_fix_separator announced expect_after data_tag_for_length_tag parse_tag_from
    is_digit declared
mask_fix_body-encode_example = mask_fix_body-encode true login (
  record { tag_free = (refl, (refl, tt)); sep_is = refl; value_ok = (refl, tt) },
  (
    record { tag_free = (refl, (refl, tt)); sep_is = refl; value_ok = (refl, tt) },
    (
      record { tag_free = (refl, (refl, tt)); sep_is = refl; value_ok = refl },
      (
        record {
          tag_free = (refl, (refl, (refl, tt)));
          sep_is = refl;
          value_ok = (refl, (refl, (refl, (refl, (refl, (refl, (refl, tt)))))));
        },
        tt,
      ),
    ),
  ),
)

-- RawDataLength below the length of RawData: what is behind the announced bytes stays
mask_fix_body_understated :
    mask_fix_body (codes "95=3|96=hunter2|") true ≡ codes "95=<redacted>|96=<redacted>ter2|"
unfolding mask_fix_body mask_loop field_end announced separator_end index_or_end is_fix_separator
    expect_after data_tag_for_length_tag tag_at parse_tag parse_tag_from is_digit declared
    written_field mask_value is_credential_tag is_opaque_text_tag is_business_tag is_free_text_tag
mask_fix_body_understated = refl

abbrev password : Field
password = record { tag = codes "554"; value = codes "hunter2"; sep = 1 }

masked_field_policy_example :
    ((is_credential_tag (tag_of password) ≡ false)
      ⊎ ((masked_field false password).value ≡ redacted))
    × ((is_opaque_text_tag (tag_of password) ≡ false)
        ⊎ ((masked_field false password).value ≡ masked))
    × ((one_of (tag_of password) diagnostic ≡ false) ⊎ (masked_field false password ≡ password))
    × ((is_business_tag (tag_of password) ≡ false)
        ⊎ ((masked_field false password).value ≡ codes "hunter2"))
masked_field_policy_example = masked_field_policy false password (λ e. omega (arith, ap length e))

respelled : Respelled (codes "Pass-Word") (codes "password")
unfolding to_lower
respelled = Respelled.letter refl refl refl (
    Respelled.letter refl refl refl (
      Respelled.letter refl refl refl (
        Respelled.letter refl refl refl (
          Respelled.left refl (
            Respelled.letter refl refl refl (
              Respelled.letter refl refl refl (
                Respelled.letter refl refl refl
                  (Respelled.letter refl refl refl Respelled.nil))))))))

is_sensitive_key-Respelled_example :
    is_sensitive_key (codes "Pass-Word") ≡ is_sensitive_key (codes "password")
is_sensitive_key-Respelled_example = is_sensitive_key-Respelled respelled

redact_free_text-uri :
    redact_free_text (codes "login user=bob ok") ≡ codes "login user=<redacted> ok"
unfolding redact_free_text scrub_loop index_or_end is_space judge assigned_at find_index plain_token
    strip_punct drop_while_end drop_while is_alnum is_sensitive_key is_sensitive_name fold listed
    eq_text to_lower find_text is_digit starts_with contains holds is_stop_word in_window
redact_free_text-uri = refl

redact_free_text_words_example :
    (ws : List Word) × (tail : Bytes) × (codes "password rejected for bob" ≡ Words.encode ws tail)
    × Separated ws tail
    × (redact_free_text (codes "password rejected for bob") ≡ Words.encode (scrub_words 0 ws) tail)
redact_free_text_words_example = redact_free_text_words (codes "password rejected for bob")

abbrev word_of : Bytes → Bytes → Word
word_of gap token = record { gap = gap; token = token }

abbrev noun : Word
noun = word_of [] (codes "password")

abbrev connectors : List Word
connectors = word_of (codes " ") (codes "rejected") ∷ word_of (codes " ") (codes "for") ∷ []

abbrev bob : Word
bob = word_of (codes "  ") (codes "bob")

abbrev today : Word
today = word_of (codes " ") (codes "today")

word :
    (gap token : Bytes)
    → find_index (λ c. not (is_space c)) gap ≡ none
    → find_index is_space token ≡ none
    → token ≢ []
    → IsWord (word_of gap token)
word gap token g t ne = record {
  blanks = Free-find_index (λ c. not (is_space c)) gap g;
  not_empty = ne;
  no_blank = Free-find_index is_space token t;
}

redact_free_text_value_example :
    redact_free_text (codes "password rejected for  bob today")
    ≡ Words.encode
        (noun ∷ (connectors ++ record bob { token = redacted } ∷ scrub_words 0 (today ∷ [])))
        []
unfolding index_or_end is_space assigned_at find_index strip_punct drop_while_end drop_while
    is_alnum is_sensitive_key is_sensitive_name fold listed eq_text to_lower find_text is_digit
    starts_with contains holds is_stop_word
redact_free_text_value_example =
    redact_free_text_value noun connectors bob (today ∷ []) [] (omega arith)
      (record { not_assigned = refl; named = refl; sensitive = refl })
      (
        record { not_assigned = refl; named = refl; harmless = refl; stops = refl },
        (record { not_assigned = refl; named = refl; harmless = refl; stops = refl }, tt),
      )
      (record { not_assigned = refl; named = refl; harmless = refl; stops = refl })
      (
        word [] (codes "password") refl refl (λ e. omega (arith, ap length e)),
        refl,
        (
          word (codes " ") (codes "rejected") refl refl (λ e. omega (arith, ap length e)),
          refl,
          (
            word (codes " ") (codes "for") refl refl (λ e. omega (arith, ap length e)),
            refl,
            (
              word (codes "  ") (codes "bob") refl refl (λ e. omega (arith, ap length e)),
              refl,
              (
                word (codes " ") (codes "today") refl refl (λ e. omega (arith, ap length e)),
                tt,
                tt,
              ),
            ),
          ),
        ),
      )
