-- ===== src/Pipeline/EndToEnd.antt =====
-- From the logs to the scraper: the registry of the main loop (fix_monitor/src/main.cpp) served by the
-- HTTP server (http_server.cpp) as `main` connects them.
use fix_mon.Prelude.{
  ℕ, suc, ◌<◌, ◌^◌, ◌≡◌, refl, ap, ◌∙◌, ℤ, pos, pos_part, Option, some, List, ◌++◌, Bytes, codes,
  length, Free, find_index, Free-find_index, eq_text,
}
use fix_mon.Config.Load.{AppConfig}
use fix_mon.Metrics.{MetricRegistry, new_metrics, declare_all_metrics}
use fix_mon.Metrics.Exposition.{expose}
use fix_mon.Metrics.Plain.{Plain}
use fix_mon.Metrics.Reader.{is_line_feed, is_gap, read_samples, samples}
use fix_mon.EventStore.{Sqlite}
use fix_mon.HttpServer.{http_response, page, handle_client, is_sp}
use fix_mon.HttpServer.Sending.{TakesInOrder}
use fix_mon.HttpServer.Responses.{read_body}
use fix_mon.HttpServer.Requests.{is_nul, request_line}
use fix_mon.HttpServer.Client.{handle_client-page}
use fix_mon.Pipeline.{Pipeline}
use fix_mon.Pipeline.Publish.{Doubles}
use fix_mon.Pipeline.Loop.{Seen, passes, started}
use fix_mon.Pipeline.Scraped.{read_samples-passes}

page_metrics : (metrics sessions : Bytes) → (page metrics sessions (codes "/metrics")).0 ≡ metrics
unfolding page eq_text
page_metrics metrics sessions = refl

-- the response to a request for the metrics
abbrev pub response_to : Bytes → Bytes → Bytes
response_to text sessions =
    http_response (page text sessions (codes "/metrics")).0
      (page text sessions (codes "/metrics")).1

module _ (doubles : Doubles) {Db : Type 0} (sql : Sqlite Db) (cfg : AppConfig)
    (show_double : ℕ → Bytes) {Conn : Type 0} (send : Bytes → ℤ → Conn → ℤ × Conn)
    (received : Conn → Bytes) (recv : ℕ → Conn → Bytes × Conn) where
  -- what the loop has made of the events
  abbrev pub registry_after : ℕ → List Seen → Pipeline Db → MetricRegistry
  registry_after time ws p =
      (passes sql doubles cfg ws (started sql doubles cfg time p)).pipeline.metrics

  abbrev pub metrics_text : ℕ → List Seen → Pipeline Db → Bytes
  metrics_text time ws p = expose show_double (registry_after time ws p)

  -- the scraper has got a response, and reads these samples out of its body
  abbrev pub Scraped : MetricRegistry → Bytes → Option Conn → Type 0
  Scraped r before o =
      (d : Conn) × (response : Bytes) × (body : Bytes) × (o ≡ some d)
      × (received d ≡ before ++ response)
      × (read_body response ≡ some body)
      × ((a : Plain r) × (read_samples body ≡ samples show_double r a))

  -- A scraper that asks for `/metrics` after any passes of the loop is answered to the end, and reads
  -- out of the body of the response every counter and gauge of the registry with its labels and its
  -- value, and nothing else, whatever the logs and the configuration say. A double is written without a line
  -- feed or space; `send` takes bytes in their order and one at least; the request is received in
  -- one piece without a zero byte, its method has no space, and the response has fewer than 2 ^ 31
  -- bytes.
  pub handle_client-Scraped :
      ((v : ℕ) → Free is_line_feed (show_double v) × Free is_gap (show_double v))
      → TakesInOrder send received
      → ((bytes : Bytes) (k : ℕ) (c : Conn) → 0 < pos_part (send bytes (pos (suc k)) c).0)
      → (max time : ℕ) (ws : List Seen) (p : Pipeline Db) (sessions method rest : Bytes) (c : Conn)
      → p.metrics ≡ declare_all_metrics (new_metrics max)
      → (recv 2047 c).0 ≡ request_line method (codes "/metrics") rest
      → Free is_nul (request_line method (codes "/metrics") rest)
      → Free is_sp method
      → length (response_to (metrics_text time ws p) sessions) < 2 ^ 31
      → Scraped
          (registry_after time ws p)
          (received (recv 2047 c).1)
          (handle_client send recv (metrics_text time ws p) sessions c)
  unfolding find_index
  handle_client-Scraped plain order progress max time ws p sessions method rest c made asked nul sp
        small =
      let text = metrics_text time ws p in
      let (d, response, ran, got, body) =
        handle_client-page send received recv order progress text sessions method (codes "/metrics")
          rest c asked nul sp (Free-find_index is_sp (codes "/metrics") refl) small in
      (
        d,
        response,
        text,
        ran,
        got,
        body ∙ ap some (page_metrics text sessions),
        read_samples-passes doubles sql cfg show_double plain max time ws p made,
      )
