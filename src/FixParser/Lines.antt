-- ===== src/FixParser/Lines.antt =====
-- `split_log_line` of fix_monitor/src/fix_parser.cpp on padded and unpadded prefixes.
use fix_mon.Prelude.{
  lt→ltb, le→leb, le→ltb_false, drop-add-append, ℕ, ◌+◌, ◌≤◌, ◌<◌, ℤ, pos, is_nonzero, ◌≡◌, refl,
  ◌∙◌, ap, inl, inr, true, false, some, [], ◌∷◌, ◌++◌, Bytes, codes, length, take, drop,
  length-append, leb, ◌==◌, if◌then◌else◌, take-length-append, Option-cases, find_index, find_text,
  drop_while, Free, find_text-append, drop_while_end-Free, Free-drop_while_end, Free-get_or,
  Free-take-find_index, arith,
}
use fix_mon.FixParser.{
  Tm, is_blank, has_shape, parse_fix_timestamp, split_at, split_at_colon, split_log_line,
}

has_shape-Free : (ts : Bytes) → Free (λ c. c == b':') ts → has_shape ts ≡ false
unfolding has_shape
has_shape-Free ts h = ground (arith, Free-get_or (λ c. c == b':') ts 11 0 h refl)

blank-Free : (s : Bytes) → Free is_blank s → Free (λ d. b' ' == d) s
blank-Free [] h = tt
blank-Free (c ∷ s) h = (ground arith, blank-Free s h.1)

module _ (timegm : Tm → ℤ) where
  parse-Free : (ts : Bytes) → Free (λ c. c == b':') ts → parse_fix_timestamp timegm ts ≡ pos 0
  unfolding parse_fix_timestamp
  parse-Free ts h = rw (has_shape-Free ts h)

  split_at_colon_lem : (line : Bytes) → split_at_colon timegm line ≡ (pos 0, line)
  unfolding split_at_colon split_at
  split_at_colon_lem line = elim (Option-cases (find_index (λ c. c == b':') line)) [
    | inl e ↦ rw (e, split_at_colon)
    | inr (i, e) ↦ rw (
      e,
      split_at_colon,
      parse-Free _ (
          Free-drop_while_end (λ c. c == b':') is_blank (take i line)
            (Free-take-find_index _ line e)),
    )
  ]

  -- Without " : " in its first 35 bytes a line keeps no timestamp: the second look, for a bare
  -- ':', cuts inside the time of day, so the whole line is the payload and the time is 0.
  pub split_log_line_unpadded :
      (line : Bytes)
      → ((i : ℕ) → find_text (codes " : ") line ≡ some i → 32 < i)
      → split_log_line timegm line ≡ (pos 0, line)
  unfolding split_log_line
  split_log_line_unpadded line far = elim (Option-cases (find_text (codes " : ") line)) [
    | inl e ↦ rw (e, split_log_line) (split_at_colon_lem line)
    | inr (i, e) ↦ rw (e, split_log_line, lt→ltb 32 i (far i e)) (split_at_colon_lem line)
  ]

  -- the cut behind the separator
  body_start :
      (stamp payload : Bytes)
      → drop
          (if leb (length stamp + 3) (length (stamp ++ (codes " : " ++ payload)))
            then length stamp + 3
            else length (stamp ++ (codes " : " ++ payload)))
          (stamp ++ (codes " : " ++ payload))
        ≡ payload
  body_start stamp payload =
      rw
        (le→leb (length stamp + 3) (length (stamp ++ (codes " : " ++ payload)))
          (omega (arith, length-append stamp (codes " : " ++ payload))))
        (drop-add-append stamp 3 (codes " : " ++ payload))

  split_at-append :
      (stamp payload : Bytes) {ts : ℤ}
      → Free is_blank stamp
      → parse_fix_timestamp timegm stamp ≡ ts
      → is_nonzero ts ≡ true
      → drop_while is_blank payload ≡ payload
      → split_at timegm (stamp ++ (codes " : " ++ payload)) (length stamp) ≡ (ts, payload)
  split_at-append stamp payload {ts} free is nz lead =
      unfold split_at in
      rw (take-length-append, drop_while_end-Free is_blank stamp free, is, nz)
        (ap (λ b. (ts, b)) (ap (drop_while is_blank) (body_start stamp payload) ∙ lead))

  -- A timestamp of at most 32 bytes without blanks, and a payload that does not begin with one,
  -- are taken apart again as they were written with " : " between them.
  pub split_log_line-append :
      (stamp payload : Bytes) {ts : ℤ}
      → length stamp ≤ 32
      → Free is_blank stamp
      → parse_fix_timestamp timegm stamp ≡ ts
      → is_nonzero ts ≡ true
      → drop_while is_blank payload ≡ payload
      → split_log_line timegm (stamp ++ (codes " : " ++ payload)) ≡ (ts, payload)
  unfolding split_log_line
  split_log_line-append stamp payload short free is nz lead =
      rw
        (
          find_text-append (codes ": ") b' ' stamp payload (blank-Free stamp free),
          split_log_line,
          le→ltb_false 32 (length stamp) short,
        )
        (split_at-append stamp payload free is nz lead)
