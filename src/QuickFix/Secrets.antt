-- ===== src/QuickFix/Secrets.antt =====
-- What becomes of the value of a credential in the engine's settings.
use fix_mon.Prelude.{
  ℕ, suc, ◌+◌, true, false, not, List, [], ◌∷◌, ◌++◌, Bytes, length, drop, take-length-append, ◌==◌,
  Free, All, find_index-append, drop_while-append, drop_while_end, drop_while_end-append, unlines,
  get_lines-unlines, ◌≡◌, refl, sym, ap, ◌∙◌, is_empty,
}
use fix_mon.Config.Values.{trim, is_margin}
use fix_mon.Redact.Keys.{is_sensitive_key, is_sensitive_name, fold}
use fix_mon.QuickFix.Reader.{
  Reader, new_reader, forget, on_key, on_entry, on_text, read_line, read_lines, finish,
  parse_quickfix_settings,
}

-- A line that sets a key: margin, then a name that starts with `c`, then the value.
pub record IsName (pad : Bytes) (c : ℕ) (k : Bytes) : Type 0 where
  pub margin : Free (λ d. not (is_margin d)) pad
  pub no_margin : is_margin c ≡ false
  pub no_comment : (c == b'#') ≡ false
  pub no_section : (c == b'[') ≡ false
  pub no_equals : Free (λ d. d == b'=') (c ∷ k)
  pub secret : is_sensitive_key (trim (c ∷ k)) ≡ true

abbrev pub setting_line : Bytes → ℕ → Bytes → Bytes → Bytes
setting_line pad c k v = pad ++ (c ∷ (k ++ (b'=' ∷ v)))

trim-setting_line :
    (pad : Bytes) (c : ℕ) (k v : Bytes)
    → IsName pad c k
    → trim (setting_line pad c k v) ≡ c ∷ (k ++ (b'=' ∷ drop_while_end is_margin v))
unfolding trim
trim-setting_line pad c k v h =
    ap (drop_while_end is_margin)
      (drop_while-append is_margin pad c (k ++ b'=' ∷ v) h.margin h.no_margin)
    ∙ drop_while_end-append is_margin (c ∷ k) b'=' v refl

forgets :
    (origin key val : Bytes) (r : Reader)
    → is_sensitive_key key ≡ true
    → is_empty key ≡ false
    → on_key origin key val r ≡ forget key r
unfolding on_key
forgets origin key val r h e = rw (e, h)

-- a sensitive name is not empty
sensitive_some : (key : Bytes) → is_sensitive_key key ≡ true → is_empty key ≡ false
unfolding is_sensitive_key is_sensitive_name fold
sensitive_some [] h = cc
sensitive_some (c ∷ k) h = refl

on_entry-secret :
    (origin : Bytes) (c : ℕ) (k val : Bytes) (r : Reader)
    → Free (λ d. d == b'=') (c ∷ k)
    → is_sensitive_key (trim (c ∷ k)) ≡ true
    → on_entry origin (c ∷ (k ++ (b'=' ∷ val))) r ≡ forget (trim (c ∷ k)) r
unfolding on_entry
on_entry-secret origin c k val r free secret =
    rw
      (
        on_entry,
        find_index-append (λ d. d == b'=') (c ∷ k) b'=' val free refl,
        take-length-append (c ∷ k) (b'=' ∷ val),
      )
      (forgets origin (trim (c ∷ k)) (trim (drop (suc (length (c ∷ k))) (c ∷ (k ++ (b'=' ∷ val)))))
        r secret (sensitive_some (trim (c ∷ k)) secret))

read_line-secret :
    (origin pad : Bytes) (c : ℕ) (k v : Bytes) (r : Reader)
    → IsName pad c k
    → read_line origin (setting_line pad c k v) r
      ≡ forget (trim (c ∷ k)) (record r { lineno = r.lineno + 1 })
unfolding read_line on_text
read_line-secret origin pad c k v r h =
    ap (λ t. on_text origin t (record r { lineno = r.lineno + 1 })) (trim-setting_line pad c k v h)
    ∙ rw (h.no_comment, h.no_section)
        (on_entry-secret origin c k (drop_while_end is_margin v)
          (record r { lineno = r.lineno + 1 }) h.no_equals h.secret)

read_lines-append :
    (origin : Bytes) (xs ys : List Bytes) (r : Reader)
    → read_lines origin (xs ++ ys) r ≡ read_lines origin ys (read_lines origin xs r)
unfolding read_lines
read_lines-append origin [] ys r = refl
read_lines-append origin (x ∷ xs) ys r = read_lines-append origin xs ys (read_line origin x r)

-- The value of a credential has no effect at all on what is read from the engine's settings: two
-- files that differ only in the value that follows a sensitive name give the same settings, the
-- warnings included.
pub parse_quickfix_settings-secret :
    (origin : Bytes) (before after : List Bytes) (pad : Bytes) (c : ℕ) (k v w : Bytes)
    → IsName pad c k
    → All (Free (λ d. d == b'\n')) (before ++ setting_line pad c k v ∷ after)
    → All (Free (λ d. d == b'\n')) (before ++ setting_line pad c k w ∷ after)
    → parse_quickfix_settings (unlines (before ++ setting_line pad c k v ∷ after)) origin
      ≡ parse_quickfix_settings (unlines (before ++ setting_line pad c k w ∷ after)) origin
unfolding parse_quickfix_settings read_lines
parse_quickfix_settings-secret origin before after pad c k v w h ok ok' =
    ap (λ ls. finish origin (read_lines origin ls new_reader))
      (get_lines-unlines (before ++ setting_line pad c k v ∷ after) ok)
    ∙ ap (finish origin) (
        read_lines-append origin before (setting_line pad c k v ∷ after) new_reader
        ∙ ap (read_lines origin after) (
            read_line-secret origin pad c k v (read_lines origin before new_reader) h
            ∙ sym (read_line-secret origin pad c k w (read_lines origin before new_reader) h))
        ∙ sym (read_lines-append origin before (setting_line pad c k w ∷ after) new_reader))
    ∙ sym (
        ap (λ ls. finish origin (read_lines origin ls new_reader))
          (get_lines-unlines (before ++ setting_line pad c k w ∷ after) ok'))
