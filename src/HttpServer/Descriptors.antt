-- ===== src/HttpServer/Descriptors.antt =====
-- `HttpServer::start`, `stop` and the accept loop (fix_monitor/src/http_server.cpp): which
-- descriptors they leave open.
use fix_mon.Prelude.{
  ℕ, ◌≡◌, refl, sym, ap, ◌∙◌, ℤ, pos, negsuc, is_nonneg, Bool, true, false, ◌&&◌, ◌||◌, subst, List,
  [], ◌∷◌, ◌++◌, Bytes, ◌==◌, if◌then◌else◌, Bool-cases, inl, inr, arith,
}
use fix_mon.HttpServer.{HttpServer, new_server, Call, Answers, start, stop, Turn, Served, run}

abbrev pub same_fd : ℤ → ℤ → Bool
same_fd (pos m) (pos n) = m == n
same_fd (negsuc m) (negsuc n) = m == n
same_fd _ _ = false

abbrev pub without : ℤ → List ℤ → List ℤ
without fd [] = []
without fd (x ∷ xs) = if same_fd fd x then xs else x ∷ without fd xs

-- The descriptors that are open after the calls, from those open before them. A call of `socket`
-- that fails opens none.
abbrev pub descriptors : List ℤ → List Call → List ℤ
descriptors open_fds [] = open_fds
descriptors open_fds (Call.socket fd ∷ calls) =
    descriptors (if is_nonneg fd then fd ∷ open_fds else open_fds) calls
descriptors open_fds (Call.bind fd port ∷ calls) = descriptors open_fds calls
descriptors open_fds (Call.listen fd ∷ calls) = descriptors open_fds calls
descriptors open_fds (Call.close fd ∷ calls) = descriptors (without fd open_fds) calls

-- the descriptor that the server holds
abbrev pub held : HttpServer → List ℤ
held s = if is_nonneg s.listen_fd then s.listen_fd ∷ [] else []

-- A server's life: `start` where it does not run, and `stop` at any time, with the calls so far.
pub data Life (port : ℕ) : HttpServer → List Call → Type 0 where
  idle : Life port (new_server port) []
  starts :
      (s : HttpServer) (calls : List Call) (os : Answers) (err : Bytes)
      → Life port s calls
      → s.running ≡ false
      → Life port (start os err s).server (calls ++ (start os err s).calls)
  stops :
      (s : HttpServer) (calls : List Call)
      → Life port s calls
      → Life port (stop s).0 (calls ++ (stop s).1)

-- what holds of the server and the open descriptors: no more than the one it listens on
pub record IsHeld (s : HttpServer) (open_fds : List ℤ) : Type 0 where
  pub exact : open_fds ≡ held s
  pub runs : s.running ≡ is_nonneg s.listen_fd
  pub joined : s.has_thread ≡ s.running

descriptors-append :
    (fds : List ℤ) (a b : List Call) → descriptors fds (a ++ b) ≡ descriptors (descriptors fds a) b
descriptors-append fds [] b = refl
descriptors-append fds (Call.socket fd ∷ a) b =
    descriptors-append (if is_nonneg fd then fd ∷ fds else fds) a b
descriptors-append fds (Call.bind fd port ∷ a) b = descriptors-append fds a b
descriptors-append fds (Call.listen fd ∷ a) b = descriptors-append fds a b
descriptors-append fds (Call.close fd ∷ a) b = descriptors-append (without fd fds) a b

same_fd_refl : (fd : ℤ) → same_fd fd fd ≡ true
same_fd_refl (pos n) = ground arith
same_fd_refl (negsuc n) = ground arith

closes : (fd : ℤ) → without fd (if is_nonneg fd then fd ∷ [] else []) ≡ []
closes fd = elim (Bool-cases (is_nonneg fd)) [ inl e ↦ rw (e, same_fd_refl fd) | inr e ↦ rw e ]

module _ (os : Answers) (err : Bytes) (s : HttpServer) where
  start-IsHeld :
      s.running ≡ is_nonneg s.listen_fd
      → s.has_thread ≡ s.running
      → s.running ≡ false
      → IsHeld (start os err s).server (descriptors (held s) (start os err s).calls)
  unfolding start
  start-IsHeld r t stopped = elim (Bool-cases (is_nonneg os.socket)) [
    | inr e ↦ rw (e, sym r ∙ stopped) record { exact = rw e; runs = stopped ∙ sym e; joined = t }
    | inl e ↦ elim (Bool-cases (is_nonneg os.bind)) [
      | inr b ↦
          rw (e, b, sym r ∙ stopped)
            (record { exact = closes os.socket; runs = stopped; joined = t })
      | inl b ↦ elim (Bool-cases (is_nonneg os.listen)) [
        | inr l ↦
            rw (e, b, l, sym r ∙ stopped)
              (record { exact = closes os.socket; runs = stopped; joined = t })
        | inl l ↦
            rw (e, b, l, sym r ∙ stopped) (record { exact = refl; runs = sym e; joined = refl })
      ]
    ]
  ]

stop-IsHeld :
    (s : HttpServer)
    → s.running ≡ is_nonneg s.listen_fd
    → s.has_thread ≡ s.running
    → IsHeld (stop s).0 (descriptors (held s) (stop s).1)
unfolding stop
stop-IsHeld s r t = elim (Bool-cases s.running) [
  | inr e ↦ rw e (record { exact = refl; runs = sym e ∙ r; joined = t ∙ e })
  | inl e ↦
      rw (e, sym r ∙ e)
        (record { exact = rw (same_fd_refl s.listen_fd); runs = refl; joined = refl })
]

-- A server that is started only where it does not run, and stopped at any time, has open the socket
-- it listens on and no other descriptor, whatever the calls of `start` answer: a failed start closes
-- what it opened, and a stop closes the socket. It runs, with a thread to join, exactly as long as
-- it has that socket.
pub Life-IsHeld :
    {port : ℕ} {s : HttpServer} {calls : List Call}
    → Life port s calls
    → IsHeld s (descriptors [] calls)
unfolding new_server
Life-IsHeld idle = record { exact = refl; runs = refl; joined = refl }
Life-IsHeld (starts s calls os err life stopped) =
    let h = Life-IsHeld life in
    subst (IsHeld (start os err s).server)
      (sym (
        descriptors-append [] calls (start os err s).calls
        ∙ ap (λ (fds : List ℤ). descriptors fds (start os err s).calls) h.exact))
      (start-IsHeld os err s h.runs h.joined stopped)
Life-IsHeld (stops s calls life) =
    let h = Life-IsHeld life in
    subst (IsHeld (stop s).0)
      (sym (
        descriptors-append [] calls (stop s).1
        ∙ ap (λ (fds : List ℤ). descriptors fds (stop s).1) h.exact))
      (stop-IsHeld s h.runs h.joined)

-- the connections of the turns up to the end of the loop
abbrev pub served_turns : List Turn → List ℤ
served_turns [] = []
served_turns (t ∷ ts) =
    if t.running && (is_nonneg t.accepted || t.still_running)
    then (if is_nonneg t.accepted then t.accepted ∷ served_turns ts else served_turns ts)
    else []

abbrev pub each_served : List ℤ → List Served
each_served [] = []
each_served (fd ∷ fds) = Served.handled fd ∷ Served.closed fd ∷ each_served fds

-- Each connection that is accepted before the loop ends is handled once and then closed, in the
-- order they are accepted. A failed `accept` while the server runs serves nothing and goes on.
pub run-each_served : (turns : List Turn) → (run turns).0 ≡ each_served (served_turns turns)
unfolding run
run-each_served [] = refl
run-each_served (t ∷ turns) = elim (Bool-cases t.running) [
  | inr e ↦ rw e
  | inl e ↦ elim (Bool-cases (is_nonneg t.accepted)) [
    | inl a ↦ rw (e, a, run-each_served turns)
    | inr a ↦ elim (Bool-cases t.still_running) [
      | inl b ↦ rw (e, a, b, run-each_served turns)
      | inr b ↦ rw (e, a, b)
    ]
  ]
]
