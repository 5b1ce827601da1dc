-- ===== src/HttpServer/Responses.antt =====
-- `http_response` of fix_monitor/src/http_server.cpp, and what a client makes of it.
use fix_mon.Prelude.{
  ℕ, zero, suc, ◌^◌, ◌<◌, ◌≡◌, refl, ap, ◌∙◌, Bool, false, Option, none, some, List, [], ◌∷◌, ◌++◌,
  Bytes, codes, length, take, drop, leb, ◌==◌, if◌then◌else◌, is_empty, starts_with, is_digit,
  find_index, Free-find_index, take_whole, to_string, stoul, le→leb, Free, Free-append, arith,
}
use fix_mon.Prelude.Digits.{stoul-to_string, Free-to_string, not_byte}
use fix_mon.HttpServer.{http_response}

abbrev pub is_return : ℕ → Bool
is_return c = c == 13

-- A line ends with CR LF: the line at the front, and what follows it.
abbrev pub cut_line : Bytes → Bytes × Bytes
cut_line [] = ([], [])
cut_line (c ∷ cs) =
    let (line, rest) = cut_line cs in if is_return c then ([], drop 1 cs) else (c ∷ line, rest)

-- the header lines, up to the empty one, and the bytes behind it
abbrev pub header_lines : ℕ → Bytes → List Bytes × Bytes
header_lines zero s = ([], s)
header_lines (suc fuel) s =
    let (lines, rest) = header_lines fuel (cut_line s).1 in
    if is_empty (cut_line s).0 then ([], (cut_line s).1) else ((cut_line s).0 ∷ lines, rest)

-- the value of the first header that has the name
abbrev pub header_value : Bytes → List Bytes → Option Bytes
header_value name [] = none
header_value name (l ∷ ls) =
    if starts_with name l then some (drop (length name) l) else header_value name ls

abbrev pub body_bytes : Option ℕ → Bytes → Option Bytes
body_bytes none s = none
body_bytes (some n) s = if leb n (length s) then some (take n s) else none

abbrev pub content_length : Option Bytes → Option ℕ
content_length none = none
content_length (some v) = stoul v

abbrev pub taken_body : List Bytes × Bytes → Option Bytes
taken_body (lines, rest) =
    body_bytes (content_length (header_value (codes "Content-Length: ") lines)) rest

-- What a client takes for the body: as many bytes behind the headers as Content-Length says, if
-- there are as many.
abbrev pub read_body : Bytes → Option Bytes
read_body s = taken_body (header_lines 16 s)

cut_line-append : (l rest : Bytes) → Free is_return l → cut_line (l ++ 13 ∷ 10 ∷ rest) ≡ (l, rest)
cut_line-append [] rest f = refl
cut_line-append (c ∷ l) rest f = rw (f.0, cut_line-append l rest f.1)

abbrev with_line : Bytes → List Bytes × Bytes → List Bytes × Bytes
with_line l (lines, rest) = (l ∷ lines, rest)

header_lines_line :
    (fuel : ℕ) (l rest : Bytes)
    → Free is_return l
    → is_empty l ≡ false
    → header_lines (suc fuel) (l ++ 13 ∷ 10 ∷ rest) ≡ with_line l (header_lines fuel rest)
header_lines_line fuel l rest f e = rw (cut_line-append l rest f, e)

module _ (body content_type : Bytes) where
  abbrev lines : List Bytes
  lines =
      codes "HTTP/1.1 200 OK"
      ∷ (codes "Content-Type: " ++ content_type)
      ∷ (codes "Content-Length: " ++ to_string (length body))
      ∷ codes "Connection: close"
      ∷ []

  header_lines-http_response :
      Free is_return content_type
      → header_lines 16 (http_response body content_type) ≡ (lines, body)
  unfolding http_response find_index is_digit
  header_lines-http_response f =
      let n : Bytes = codes "Content-Length: " ++ to_string (length body) in
      let t : Bytes = codes "Content-Type: " ++ content_type in
      let end : Bytes = 13 ∷ 10 ∷ body in
      let c : Bytes = codes "Connection: close" ++ 13 ∷ 10 ∷ end in
      let digits = Free-to_string is_return (length body) (λ b d. not_byte 13 b d refl) in
      let named : (l : Bytes) → find_index is_return l ≡ none → Free is_return l =
        Free-find_index is_return in
      header_lines_line 15 (codes "HTTP/1.1 200 OK") (t ++ 13 ∷ 10 ∷ (n ++ 13 ∷ 10 ∷ c))
        (named (codes "HTTP/1.1 200 OK") refl) refl
      ∙ ap (with_line (codes "HTTP/1.1 200 OK")) (
          header_lines_line 14 t (n ++ 13 ∷ 10 ∷ c)
            (Free-append is_return (codes "Content-Type: ") content_type
              (named (codes "Content-Type: ") refl) f)
            refl
          ∙ ap (with_line t) (
              header_lines_line 13 n c
                (Free-append is_return (codes "Content-Length: ") (to_string (length body))
                  (named (codes "Content-Length: ") refl) digits)
                refl))

  -- A client that reads the headers of the response finds the length of the body there, and takes
  -- exactly the body, if the content type has no CR in it.
  pub read_body-http_response :
      Free is_return content_type
      → length body < 2 ^ 64
      → read_body (http_response body content_type) ≡ some body
  unfolding starts_with
  read_body-http_response f h =
      ap taken_body (header_lines-http_response f)
      ∙ rw (stoul-to_string (length body) h, le→leb (length body) (length body) (omega arith))
          (ap some (take_whole (length body) body (omega arith)))
