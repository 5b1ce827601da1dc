-- ===== src/HttpServer/Tests.antt =====
-- The HTTP server on a peer that takes one byte at a time.
use fix_mon.Prelude.{
  ◌≡◌, refl, pos, negsuc, [], ◌++◌, Bytes, codes, find_index, Free-find_index, arith, to_string,
  eq_text,
}
use fix_mon.HttpServer.{
  http_response, request_path, page, handle_client, start, new_server, Answers, Started, is_sp,
  send_all,
}
use fix_mon.HttpServer.Drip.{drip, got, recv, drip-TakesInOrder, drip_progress}
use fix_mon.HttpServer.Sending.{Sent, send_all-Sent}
use fix_mon.HttpServer.Requests.{is_nul}
use fix_mon.HttpServer.Client.{IsServed, Answered, handle_client-Answered}
use fix_mon.HttpServer.Descriptors.{idle, starts, IsHeld, descriptors, Life-IsHeld}

paths :
    (request_path (codes "GET /metrics HTTP/1.1\r\n") ≡ codes "/metrics")
    × (request_path (codes "GET") ≡ codes "/")
    × (request_path (codes "GET /metrics\r\n") ≡ codes "/")
unfolding request_path find_index
paths = (refl, refl, refl)

response :
    http_response (codes "ok\n") (codes "text/plain")
    ≡ codes
        "HTTP/1.1 200 OK\r\nContent-Type: text/plain\r\nContent-Length: 3\r\nConnection: close\r\n\r\nok\n"
unfolding http_response to_string
response = refl

send_all-Sent_example : Sent drip got [] (codes "abc") (send_all drip (codes "abc") ([], []))
send_all-Sent_example =
    send_all-Sent drip got drip-TakesInOrder (codes "abc") ([], []) (omega arith)

handle_client-Answered_example :
    (body : Bytes) × IsServed [] [] (codes "/healthz") body
    × Answered drip got recv [] body
        (handle_client drip recv [] [] (codes "GET /healthz HTTP/1.1\r\n", []))
unfolding find_index page eq_text http_response to_string
handle_client-Answered_example =
    handle_client-Answered drip got recv drip-TakesInOrder drip_progress [] [] (codes "GET")
      (codes "/healthz") (codes "HTTP/1.1\r\n") (codes "GET /healthz HTTP/1.1\r\n", []) refl
      (Free-find_index is_nul (codes "GET /healthz HTTP/1.1\r\n") refl)
      (Free-find_index is_sp (codes "GET") refl) (Free-find_index is_sp (codes "/healthz") refl)
      (omega arith)

abbrev busy : Answers
busy = record { socket = pos 7; bind = negsuc 0; listen = pos 0 }

abbrev free : Answers
free = record { socket = pos 8; bind = pos 0; listen = pos 0 }

-- the port is taken, then it is free
abbrev second_try : Started
second_try = start free [] (start busy [] (new_server 9464)).server

Life-IsHeld_example :
    IsHeld second_try.server
      (descriptors [] ((start busy [] (new_server 9464)).calls ++ second_try.calls))
unfolding start new_server
Life-IsHeld_example = Life-IsHeld (
    starts (start busy [] (new_server 9464)).server (start busy [] (new_server 9464)).calls free []
      (starts (new_server 9464) [] busy [] idle refl) refl)
