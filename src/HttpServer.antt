-- ===== src/HttpServer.antt =====
-- fix_monitor/src/http_server.cpp and include/fixmon/http_server.hpp: the scrape endpoint. The
-- sockets are the operating system's: `recv` and `send` on a connection are parameters, and the
-- other calls give their answers as arguments and are listed in their order. The branches for Windows
-- are left out.
pub mod Requests
pub mod Responses
pub mod Sending
pub mod Client
pub mod Drip
pub mod Descriptors
mod Tests
use fix_mon.Prelude.{
  ℕ, zero, suc, ◌+◌, ◌-◌, ◌%◌, ◌^◌, ℤ, pos, negsuc, int32, is_nonneg, Bool, true, false, not,
  Option, none, some, List, [], ◌∷◌, ◌++◌, Bytes, codes, length, take, drop, is_empty, ltb, ◌==◌,
  if◌then◌else◌, eq_text, find_index, to_string,
}

unfoldable pub http_response : Bytes → Bytes → Bytes
http_response body content_type =
    codes "HTTP/1.1 200 OK\r\nContent-Type: "
    ++ content_type
    ++ (codes "\r\nContent-Length: "
        ++ (to_string (length body) ++ (codes "\r\nConnection: close\r\n\r\n" ++ body)))

abbrev pub is_sp : ℕ → Bool
is_sp c = c == b' '

-- the text in the buffer, up to the first zero byte
unfoldable pub until_nul : Bytes → Bytes
until_nul [] = []
until_nul (c ∷ cs) = if c == 0 then [] else c ∷ until_nul cs

-- the path up to the second space, or the one there was
abbrev pub second_space : Bytes → Option ℕ → Bytes
second_space tail none = codes "/"
second_space tail (some n) = take n tail

abbrev pub first_space : Bytes → Option ℕ → Bytes
first_space req none = codes "/"
first_space req (some sp1) =
    let tail = drop (suc sp1) req in second_space tail (find_index is_sp tail)

unfoldable pub request_path : Bytes → Bytes
request_path req = first_space req (find_index is_sp req)

-- the body that is sent for a path, and its type
unfoldable pub page : Bytes → Bytes → Bytes → Bytes × Bytes
page metrics sessions path =
    if eq_text path (codes "/metrics")
    then (metrics, codes "text/plain; version=0.0.4; charset=utf-8")
    else if eq_text path (codes "/sessions")
    then (sessions, codes "application/json")
    else if eq_text path (codes "/healthz")
    then (codes "ok\n", codes "text/plain")
    else (codes "fixmon\n/metrics\n/sessions\n/healthz\n", codes "text/plain")

-- `send bytes n` offers `n` bytes, and `recv n` takes at most `n`: no byte where the call fails or
-- the peer has closed.
module _ {Conn : Type 0} (send : Bytes → ℤ → Conn → ℤ × Conn) where
  -- the call in the loop
  unfoldable pub offer : Bytes → ℕ → Conn → ℤ × Conn
  offer bytes sent c = send (drop sent bytes) (int32 ((length bytes - sent) % 2 ^ 32)) c

  -- the loop, with `none` where the fuel runs out
  unfoldable pub send_from : ℕ → Bytes → ℕ → Conn → Option Conn
  send_from zero bytes sent c = none
  send_from (suc fuel) bytes sent c =
      if ltb sent (length bytes)
      then elim (offer bytes sent c).0 [
        | pos zero ↦ some (offer bytes sent c).1
        | pos (suc n) ↦ send_from fuel bytes ((sent + suc n) % 2 ^ 64) (offer bytes sent c).1
        | negsuc n ↦ some (offer bytes sent c).1
      ]
      else some c

  unfoldable pub send_all : Bytes → Conn → Option Conn
  send_all bytes c = send_from (suc (length bytes)) bytes 0 c

  -- the end of `handle_client`, once the request is read
  unfoldable pub answer_request : Bytes → Bytes → Bytes → Conn → Option Conn
  answer_request metrics sessions buffer c =
      let (body, content_type) = page metrics sessions (request_path (until_nul buffer)) in
      send_all (http_response body content_type) c

  unfoldable pub handle_client : (ℕ → Conn → Bytes × Conn) → Bytes → Bytes → Conn → Option Conn
  handle_client recv metrics sessions c =
      let (buffer, c') = recv 2047 c in
      if is_empty buffer then some c' else answer_request metrics sessions buffer c'

-- the members that change
pub record HttpServer : Type 0 where
  pub port : ℕ
  pub listen_fd : ℤ
  pub has_thread : Bool
  pub running : Bool

unfoldable pub new_server : ℕ → HttpServer
new_server port = record { port = port; listen_fd = negsuc 0; has_thread = false; running = false }

-- the calls on the listening socket, with what they were given; `setsockopt`, whose answer is
-- ignored, is left out
pub data Call : Type 0 where
  socket : ℤ → Call
  bind : ℤ → ℕ → Call
  listen : ℤ → Call
  close : ℤ → Call

-- what the system answers to the calls of `start`
pub record Answers : Type 0 where
  pub socket : ℤ
  pub bind : ℤ
  pub listen : ℤ

-- what `start` returns, `err`, the server afterwards and the calls made
pub record Started : Type 0 where
  pub result : Bool
  pub err : Bytes
  pub server : HttpServer
  pub calls : List Call

unfoldable pub failed : Bytes → ℤ → HttpServer → List Call → Started
failed err fd s calls = record {
  result = false;
  err = err;
  server = record s { listen_fd = fd };
  calls = calls;
}

unfoldable pub start : Answers → Bytes → HttpServer → Started
unfolding failed
start os err s =
    let fd = os.socket in
    if not (is_nonneg fd)
    then failed (codes "socket() failed") fd s (Call.socket fd ∷ [])
    else if not (is_nonneg os.bind)
    then failed (codes "bind() failed on port " ++ to_string s.port) (negsuc 0) s
        (Call.socket fd ∷ Call.bind fd s.port ∷ Call.close fd ∷ [])
    else if not (is_nonneg os.listen)
    then failed (codes "listen() failed") (negsuc 0) s
        (Call.socket fd ∷ Call.bind fd s.port ∷ Call.listen fd ∷ Call.close fd ∷ [])
    else record {
      result = true;
      err = err;
      server = record s { listen_fd = fd; has_thread = true; running = true };
      calls = Call.socket fd ∷ Call.bind fd s.port ∷ Call.listen fd ∷ [];
    }

unfoldable pub stop : HttpServer → HttpServer × List Call
stop s =
    if not s.running
    then (s, [])
    else if is_nonneg s.listen_fd
    then (
      record s { running = false; listen_fd = negsuc 0; has_thread = false },
      Call.close s.listen_fd ∷ [],
    )
    else (record s { running = false; has_thread = false }, [])

-- One turn of the accept loop: whether `running_` is set where the turn begins, what `accept`
-- answers, and whether `running_` is still set where it failed.
pub record Turn : Type 0 where
  pub running : Bool
  pub accepted : ℤ
  pub still_running : Bool

-- what the loop does with a connection
pub data Served : Type 0 where
  handled : ℤ → Served
  closed : ℤ → Served

-- The accept loop over the turns that happen; whether it has returned.
unfoldable pub run : List Turn → List Served × Bool
run [] = ([], false)
run (t ∷ turns) =
    let (served, ended) = run turns in
    if not t.running
    then ([], true)
    else if is_nonneg t.accepted
    then (Served.handled t.accepted ∷ Served.closed t.accepted ∷ served, ended)
    else if not t.still_running
    then ([], true)
    else (served, ended)
