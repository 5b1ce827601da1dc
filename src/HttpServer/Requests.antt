-- ===== src/HttpServer/Requests.antt =====
-- The request line in `HttpServer::handle_client` (fix_monitor/src/http_server.cpp).
use fix_mon.Prelude.{
  ℕ, ◌≡◌, refl, Bool, [], ◌∷◌, ◌++◌, Bytes, ◌==◌, find_index-append, drop-suc-length-append,
  take-length-append, Free,
}
use fix_mon.HttpServer.{until_nul, request_path, is_sp}

abbrev pub is_nul : ℕ → Bool
is_nul c = c == 0

-- a request line, and whatever follows it
abbrev pub request_line : Bytes → Bytes → Bytes → Bytes
request_line method path rest = method ++ b' ' ∷ (path ++ b' ' ∷ rest)

pub until_nul-Free : (s : Bytes) → Free is_nul s → until_nul s ≡ s
unfolding until_nul
until_nul-Free [] f = refl
until_nul-Free (c ∷ s) f = rw (f.0, until_nul-Free s f.1)

-- The path of a request is what stands between the method and the protocol, if neither the method
-- nor the path has a space.
pub request_path_lem :
    (method path rest : Bytes)
    → Free is_sp method
    → Free is_sp path
    → request_path (request_line method path rest) ≡ path
unfolding request_path
request_path_lem method path rest m p = rw (
  find_index-append is_sp method b' ' (path ++ b' ' ∷ rest) m refl,
  drop-suc-length-append method b' ' (path ++ b' ' ∷ rest),
  find_index-append is_sp path b' ' rest p refl,
  take-length-append path (b' ' ∷ rest),
)
