-- ===== src/HttpServer/Client.antt =====
-- One request, from the bytes of the client to the body it reads (`handle_client`,
-- fix_monitor/src/http_server.cpp).
use fix_mon.Prelude.{
  ℕ, suc, ◌^◌, ◌≤◌, ◌<◌, ◌≡◌, ◌≢◌, refl, sym, subst, ap, ◌∙◌, ℤ, pos, pos_part, true, false, Option,
  some, [], ◌∷◌, ◌++◌, Bytes, codes, length, length-append, eq_text, eq_text_iff, find_index,
  Free-find_index, Bool-cases, Free, inl, inr, arith, is_empty, to_string,
}
use fix_mon.HttpServer.{
  http_response, page, handle_client, answer_request, is_sp, request_path, until_nul,
}
use fix_mon.HttpServer.Sending.{TakesInOrder, send_all_whole}
use fix_mon.HttpServer.Responses.{is_return, read_body, read_body-http_response}
use fix_mon.HttpServer.Requests.{is_nul, request_line, request_path_lem, until_nul-Free}

-- the content types are ASCII texts on one line
page-Free : (m s path : Bytes) → Free is_return (page m s path).1
unfolding page find_index
page-Free m s path = elim (Bool-cases (eq_text path (codes "/metrics"))) [
  | inl e ↦ rw e (Free-find_index is_return (codes "text/plain; version=0.0.4; charset=utf-8") refl)
  | inr n ↦ elim (Bool-cases (eq_text path (codes "/sessions"))) [
    | inl e ↦ rw (n, e) (Free-find_index is_return (codes "application/json") refl)
    | inr o ↦ elim (Bool-cases (eq_text path (codes "/healthz"))) [
      | inl e ↦ rw (n, o, e) (Free-find_index is_return (codes "text/plain") refl)
      | inr e ↦ rw (n, o, e) (Free-find_index is_return (codes "text/plain") refl)
    ]
  ]
]

-- The texts that are served under a path: four paths have one of their own.
pub data IsServed (metrics sessions : Bytes) : Bytes → Bytes → Type 0 where
  of_metrics : IsServed metrics sessions (codes "/metrics") metrics
  of_sessions : IsServed metrics sessions (codes "/sessions") sessions
  of_health : IsServed metrics sessions (codes "/healthz") (codes "ok\n")
  of_index :
      {path : Bytes}
      → path ≢ codes "/metrics"
      → path ≢ codes "/sessions"
      → path ≢ codes "/healthz"
      → IsServed metrics sessions path (codes "fixmon\n/metrics\n/sessions\n/healthz\n")

differs : {xs ys : Bytes} → eq_text xs ys ≡ false → xs ≢ ys
differs {xs} {ys} n e = ground (arith, eq_text_iff xs ys)

same_text : {xs ys : Bytes} → eq_text xs ys ≡ true → ys ≡ xs
same_text {xs} {ys} e = sym ((eq_text_iff xs ys).0 e)

page-IsServed : (m s path : Bytes) → IsServed m s path (page m s path).0
unfolding page
page-IsServed m s path = elim (Bool-cases (eq_text path (codes "/metrics"))) [
  | inl e ↦ rw e (subst (λ (p : Bytes). IsServed m s p m) (same_text e) of_metrics)
  | inr n ↦ elim (Bool-cases (eq_text path (codes "/sessions"))) [
    | inl e ↦ rw (n, e) (subst (λ (p : Bytes). IsServed m s p s) (same_text e) of_sessions)
    | inr o ↦ elim (Bool-cases (eq_text path (codes "/healthz"))) [
      | inl e ↦
          rw (n, o, e)
            (subst (λ (p : Bytes). IsServed m s p (codes "ok\n")) (same_text e) of_health)
      | inr e ↦ rw (n, o, e) (of_index (differs n) (differs o) (differs e))
    ]
  ]
]

length-http_response :
    (body content_type : Bytes) → length body ≤ length (http_response body content_type)
unfolding http_response
length-http_response body content_type =
    let d = to_string (length body) in
    let c : Bytes = codes "\r\nConnection: close\r\n\r\n" in
    let l : Bytes = codes "\r\nContent-Length: " in
    omega (
      arith,
      length-append (codes "HTTP/1.1 200 OK\r\nContent-Type: ")
          (content_type ++ (l ++ (d ++ (c ++ body)))),
      length-append content_type (l ++ (d ++ (c ++ body))),
      length-append l (d ++ (c ++ body)),
      length-append d (c ++ body),
      length-append c body,
    )

is_empty-request_line :
    (method path rest : Bytes) → is_empty (request_line method path rest) ≡ false
is_empty-request_line [] path rest = refl
is_empty-request_line (c ∷ method) path rest = refl

module _ {Conn : Type 0} (send : Bytes → ℤ → Conn → ℤ × Conn) (received : Conn → Bytes)
    (recv : ℕ → Conn → Bytes × Conn) where
  -- what the client has got, and what it makes of it
  abbrev pub Answered : Bytes → Bytes → Option Conn → Type 0
  Answered before body o =
      (d : Conn) × (response : Bytes) × (o ≡ some d)
      × (received d ≡ before ++ response)
      × (read_body response ≡ some body)

  -- the answer holds the page of the path
  pub handle_client-page :
      TakesInOrder send received
      → ((bytes : Bytes) (k : ℕ) (c : Conn) → 0 < pos_part (send bytes (pos (suc k)) c).0)
      → (metrics sessions method path rest : Bytes) (c : Conn)
      → (recv 2047 c).0 ≡ request_line method path rest
      → Free is_nul (request_line method path rest)
      → Free is_sp method
      → Free is_sp path
      → length (http_response (page metrics sessions path).0 (page metrics sessions path).1)
        < 2 ^ 31
      → Answered
          (received (recv 2047 c).1)
          (page metrics sessions path).0
          (handle_client send recv metrics sessions c)
  unfolding handle_client answer_request
  handle_client-page t progress m s method path rest c e nul sp1 sp2 small =
      let (body, content_type) = page m s path in
      let asked =
        ap (λ (b : Bytes). request_path (until_nul b)) e
        ∙ ap request_path (until_nul-Free (request_line method path rest) nul)
        ∙ request_path_lem method path rest sp1 sp2 in
      let some_bytes = ap is_empty e ∙ is_empty-request_line method path rest in
      let (d, run, got) =
        send_all_whole send received t progress (http_response body content_type) (recv 2047 c).1
          small in
      (
        d,
        http_response body content_type,
        rw (some_bytes, asked) run,
        got,
        read_body-http_response body content_type (page-Free m s path)
            (omega (arith, length-http_response body content_type)),
      )

  -- A request whose method and path have no space, and no zero byte in what is received, is answered
  -- to the end, and the body that the client reads out of the answer is the metrics for `/metrics`,
  -- the sessions for `/sessions`, `ok` for `/healthz` and the index for any other path. `send` takes
  -- bytes in their order and one at least, and the response has fewer than 2 ^ 31 bytes.
  pub handle_client-Answered :
      TakesInOrder send received
      → ((bytes : Bytes) (k : ℕ) (c : Conn) → 0 < pos_part (send bytes (pos (suc k)) c).0)
      → (metrics sessions method path rest : Bytes) (c : Conn)
      → (recv 2047 c).0 ≡ request_line method path rest
      → Free is_nul (request_line method path rest)
      → Free is_sp method
      → Free is_sp path
      → length (http_response (page metrics sessions path).0 (page metrics sessions path).1)
        < 2 ^ 31
      → (body : Bytes) × IsServed metrics sessions path body
        × Answered (received (recv 2047 c).1) body (handle_client send recv metrics sessions c)
  handle_client-Answered t progress m s method path rest c e nul sp1 sp2 small = (
    (page m s path).0,
    page-IsServed m s path,
    handle_client-page t progress m s method path rest c e nul sp1 sp2 small,
  )
