-- ===== src/Pipeline/Tests.antt =====
-- Runs of the pipeline in front of a database in memory.
use fix_mon.Prelude.{
  ◌++◌, map, eq_text, ◌+◌, ◌<◌, pos, false, some, List, [], ◌∷◌, Bytes, codes, length, ◌≡◌, refl,
  ◌⊎◌, arith, ltb,
}
use fix_mon.Prelude.{to_string}
use fix_mon.Config.Load.{AppConfig, default_config}
use fix_mon.Config.Session.{default_session}
use fix_mon.Metrics.{MetricRegistry, declare_all_metrics}
use fix_mon.Metrics.Exposition.{expose}
use fix_mon.Metrics.Plain.{Plain}
use fix_mon.Metrics.{Labels}
use fix_mon.Metrics.LabelReader.{is_equals, IsLabels}
use fix_mon.Metrics.Reader.{is_line_feed, read_samples, samples}
use fix_mon.Metrics.Scrape.{digits_plain}
use fix_mon.Pipeline.Publish.{Doubles}
use fix_mon.Pipeline.Loop.{Seen, passes, started}
use fix_mon.Prelude.{◌%◌, ◌^◌}
use fix_mon.Metrics.Values.{counter_value, turned_away}
use fix_mon.Pipeline.Counting.{Increment, inc_all, added, refusals, inc_all-added}
use fix_mon.Prelude.{ℕ, Bool, not, none, ◌==◌}
use fix_mon.QuickFix.Logs.{FileSystem}
use fix_mon.Pipeline.Orderly.{Orderly}
use fix_mon.Prelude.{find_index, Free-find_index}
use fix_mon.HttpServer.{http_response, handle_client, is_sp}
use fix_mon.HttpServer.Requests.{is_nul}
use fix_mon.HttpServer.Drip.{Peer, drip, got, recv, drip-TakesInOrder, drip_progress}
use fix_mon.Prelude.{to_lower, find_text, starts_with}
use fix_mon.Redact.Keys.{is_sensitive_key, is_sensitive_name, fold, listed, holds, contains}
use fix_mon.Config.Session.{session_id, seq_reset_policy, resend_capability}
use fix_mon.HttpServer.{page}
use fix_mon.Metrics.{
  declare, declare_each, gauge, new_gauge, names_secret, encode_labels, encode_rest, escape,
}
use fix_mon.Metrics.Declarations.{declarations}
use fix_mon.Metrics.Exposition.{
  expose_families, expose_family, sample_line, sample_lines, help_line, type_line,
}
use fix_mon.Pipeline.Publish.{publish_session_info, set}
use fix_mon.Pipeline.Loop.{register_all, attached}
use fix_mon.Pipeline.EndToEnd.{response_to, Scraped, handle_client-Scraped}
use fix_mon.Pipeline.Scraped.{read_samples-passes}
use fix_mon.Prelude.Dict
use fix_mon.Event.{Event, EventClass, default_event}
use fix_mon.SessionState.{new_registry}
use fix_mon.Metrics.{new_metrics}
use fix_mon.EventStore.{new_store}
use fix_mon.EventStore.Accounts.{table}
use fix_mon.EventStore.Memory.{Rows, in_memory, in_memory-IsSqlite}
use fix_mon.Pipeline.Arguments.{Command, no_arguments, read_arguments, settled}
use fix_mon.Pipeline.Json.{json_escape}
use fix_mon.Pipeline.Quoting.{read_string, shown, read_string-json_escape}
use fix_mon.Pipeline.{Pipeline, Pressure, Action, act_all, drain, wait_rounds, sink}
use fix_mon.EventStore.Rows.{event_row}
use fix_mon.Pipeline.Drained.{applied, watched, drain-act_all}

abbrev event_for : Bytes → Event
event_for id = record default_event { session_id = id }

abbrev just_opened : Pipeline (Rows × Rows)
just_opened = record {
  sessions = new_registry (pos 2);
  metrics = new_metrics 10;
  store = record new_store { db = some ([], []) };
}

-- two events with a tick between them
abbrev actions : List Action
actions =
    Action.pops (event_for (codes "A"))
    ∷ Action.ticks (pos 5)
    ∷ Action.pops (event_for (codes "B"))
    ∷ []

abbrev ended : Pipeline (Rows × Rows)
ended = drain in_memory (event_for (codes "A") ∷ []) (act_all in_memory 1 actions just_opened)

drain-act_all_example :
    (ended.sessions ≡ applied (event_for (codes "A") ∷ []) (watched actions just_opened.sessions))
    × (ended.store.staged ≡ [])
    × ((table (λ d. d.0) ended.store
          ≡ map event_row
              (event_for (codes "A") ∷ event_for (codes "B") ∷ event_for (codes "A") ∷ []))
        ⊎ (just_opened.store.write_errors < ended.store.write_errors))
drain-act_all_example =
    drain-act_all in_memory (λ d. d.0) in_memory-IsSqlite 1 actions (event_for (codes "A") ∷ [])
      just_opened ([], []) refl (omega arith) (omega arith)

abbrev no_pressure : Pressure
no_pressure = record { delivered = 0; waits = 0; dropped = 0 }

-- the third round is the first that the queue has room in
sink_waits :
    sink 5 (λ i. false) (λ i. ltb 2 i) no_pressure
    ≡ record { delivered = 1; waits = 1; dropped = 0 }
unfolding sink wait_rounds
sink_waits = refl

read_string-json_escape_example :
    read_string (json_escape (codes "say \"no\",") ++ (34 ∷ codes ",x"))
    ≡ some (map shown (codes "say \"no\","), codes ",x")
read_string-json_escape_example = read_string-json_escape (codes "say \"no\",") (codes ",x")

read_arguments_order :
    read_arguments (codes "-q" ∷ codes "a.cfg" ∷ codes "b.ini" ∷ []) no_arguments
    ≡ Command.run (codes "b.ini") (codes "a.cfg" ∷ []) false
unfolding read_arguments settled eq_text
read_arguments_order = refl

-- the engine logged a session whose name would end a line of the exposition
abbrev hostile : Event
hostile = record (event_for (codes "A\n# B 1")) { event_class = EventClass.fix_message }

abbrev no_doubles : Doubles
no_doubles = record { of_int = λ i. 0; of_uint = λ n. n; seconds = λ i. 0 }

abbrev seen : Seen
seen = record {
  popped = hostile ∷ [];
  steady = 5000000000;
  flush_now = pos 7;
  snapshot_now = pos 7;
  purge_now = pos 7;
  queue_size = 3;
  pressure = no_pressure;
  adapters = [];
}

abbrev one_session : AppConfig
one_session = record default_config {
  sessions = record default_session { sender_comp_id = codes "A" } ∷ [];
}

abbrev just_declared : Pipeline (Rows × Rows)
just_declared = record just_opened { metrics = declare_all_metrics (new_metrics 100) }

abbrev scraped : MetricRegistry
scraped =
    (passes in_memory no_doubles one_session (seen ∷ [])
      (started in_memory no_doubles one_session 0 just_declared)).pipeline.metrics

read_samples-passes_example :
    (a : Plain scraped) × (read_samples (expose to_string scraped) ≡ samples to_string scraped a)
read_samples-passes_example =
    read_samples-passes no_doubles in_memory one_session to_string digits_plain 100 0 (seen ∷ [])
      just_declared refl

abbrev session_a : Labels
session_a = (codes "session", codes "A") ∷ []

session_a-IsLabels : IsLabels session_a
unfolding find_index
session_a-IsLabels = (
  Free-find_index is_line_feed (codes "session") refl,
  Free-find_index is_equals (codes "session") refl,
  tt,
)

-- the cap of one series lets the second family in no more
abbrev increments : List Increment
increments = (codes "a", session_a, 2) ∷ (codes "b", [], 1) ∷ (codes "a", session_a, 3) ∷ []

inc_all-added_example :
    (counter_value (codes "a") (encode_labels session_a) (inc_all increments (new_metrics 1))
      ≡ (counter_value (codes "a") (encode_labels session_a) (new_metrics 1)
          + added (codes "a") session_a increments (new_metrics 1))
        % 2 ^ 64)
    × (turned_away (inc_all increments (new_metrics 1))
        ≡ turned_away (new_metrics 1) + refusals increments (new_metrics 1))
unfolding new_metrics Dict.lookup find_index
inc_all-added_example =
    inc_all-added (codes "a") session_a increments (new_metrics 1) session_a-IsLabels
      (session_a-IsLabels, (tt, (session_a-IsLabels, tt))) (record { families = tt; series = tt })
      (omega arith) (omega arith)

-- a system without files
abbrev nothing_there : FileSystem
nothing_there = record {
  is_directory = λ p. false;
  is_file = λ p. false;
  exists = λ p. false;
  entries = λ p. [];
  read_file = λ p. none;
}

-- only the port that is not taken, and less memory than the queue needs
abbrev port_taken : ℕ → Bool
port_taken port = not (port == 9464)

abbrev a_page : ℕ → Bool
a_page cells = ltb cells 100

-- an ini file of one session
abbrev one_file : FileSystem
one_file = record nothing_there {
  read_file = λ p. some (codes "[session]\nsender_comp_id=A\ntarget_comp_id=B\n");
}

-- what it says
abbrev one_configured : AppConfig
one_configured = record default_config {
  sessions =
      record default_session {
        begin_string = codes "FIX.4.4";
        sender_comp_id = codes "A";
        target_comp_id = codes "B";
      }
      ∷ [];
}

-- a peer that takes one byte at a time, with what it asks for and what it has got
abbrev scraper : Peer
scraper = (codes "GET /metrics HTTP/1.1\r\n", [])

-- before the first pass
abbrev at_start : MetricRegistry
at_start =
    (passes in_memory no_doubles one_session []
      (started in_memory no_doubles one_session 0 just_declared)).pipeline.metrics

response_small : length (response_to (expose to_string at_start) []) < 2 ^ 31
unfolding find_index http_response page eq_text to_string expose expose_families expose_family
    passes started register_all sample_line sample_lines help_line type_line declare_all_metrics
    declare_each declare declarations Dict.alter Dict.lookup Dict.compare_text new_metrics
    publish_session_info set gauge new_gauge names_secret is_sensitive_key is_sensitive_name fold
    listed to_lower holds contains find_text starts_with encode_labels encode_rest escape session_id
    seq_reset_policy resend_capability attached
response_small = omega arith

handle_client-Scraped_example :
    Scraped no_doubles in_memory one_session to_string drip got recv at_start []
      (handle_client drip recv (expose to_string at_start) [] scraper)
unfolding find_index
handle_client-Scraped_example =
    handle_client-Scraped no_doubles in_memory one_session to_string drip got recv digits_plain
      drip-TakesInOrder drip_progress 100 0 [] just_declared [] (codes "GET") (codes "HTTP/1.1\r\n")
      scraper refl refl (Free-find_index is_nul (codes "GET /metrics HTTP/1.1\r\n") refl)
      (Free-find_index is_sp (codes "GET") refl) response_small
