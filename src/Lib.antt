-- ===== src/Lib.antt =====
-- fix_monitor: a collector that tails the message log and the event log of FIX engines, redacts
-- what it reads, and keeps the state of each session.
--
-- The program. A line of a log goes through an adapter, which cuts off the timestamp, reads the
-- FIX body or the engine's prose, and makes a normalized and redacted event of it. The pipeline
-- applies the events to the session registry, from which staleness, gaps and link states are
-- read, and the metric registry names the series under which they are exported. A configuration
-- says which sessions there are.
--
-- Which file models what (paths from the repository's root):
--   Event, Event/Names              fix_monitor/include/fixmon/event.hpp, fix_monitor/src/event.cpp
--   FixParser, FixParser/*          fix_monitor/src/fix_parser.cpp: parse_fix_fields,
--                                   parse_fix_timestamp, split_log_line, msg_type_name
--   SessionState, SessionState/*    fix_monitor/src/session_state.cpp and its header: the methods of
--                                   the registry; `apply` is `apply_to` on the session that is named
--   Redact, Redact/*                fix_monitor/src/redact.cpp: is_sensitive_key, mask_fix_body,
--                                   redact_free_text and the tables of tags
--   Adapters, Adapters/*            fix_monitor/src/message_log_adapter.cpp and
--                                   event_log_adapter.cpp: parse_line, start, stop and run
--   Config, Config/*                fix_monitor/src/config.cpp and its header: the ini loader, values,
--                                   session ids, derived policies, the import of engine settings
--   Metrics, Metrics/*              fix_monitor/src/metrics.cpp and its header: the series,
--                                   their cap, the escaping of labels, the families declared, the
--                                   text of a scrape
--   HttpServer, HttpServer/*        fix_monitor/src/http_server.cpp and its header: start, stop and
--                                   run, the request line, the response, send_all
--   TailReader, TailReader/*        fix_monitor/src/tail_reader.cpp: poll, open_stream and
--                                   detect_rotation
--   MpmcQueue, MpmcQueue/*          fix_monitor/include/fixmon/mpmc_queue.hpp: try_push and try_pop
--                                   as steps of any number of threads (Move, Step), size_approx
--   QuickFix, QuickFix/*            fix_monitor/src/quickfix_config.cpp and its header: the reader of
--                                   the engine's settings, the search for logs, the sessions
--   EventStore, EventStore/*        fix_monitor/src/event_store.cpp and its header: staging, flush,
--                                   snapshots, the purge, the columns of a row
--   Pipeline, Pipeline/*            fix_monitor/src/main.cpp: the sink, the consumer, the passes of
--                                   the main loop, the end of a run, the series that an event moves
--                                   and those published, the JSON of the sessions, the command
--                                   line, the program up to its loop (Startup, Printed); EndToEnd
--                                   joins the main loop and the HTTP server
--   Body                            a FIX body as the fields that it is written from
--   Prelude, Prelude/*              bytes, integers, lists, sorted maps, Boolean tests
--
-- How the code is read. A string is a list of byte values, an enum a data type, a struct a record,
-- a std::map a list in key order (Prelude/Dict), and a function that writes through a reference
-- returns what it writes. A counter of 64 bits wraps round at 2 ^ 64; a clock is an integer, and
-- where its nanoseconds overflow an int64_t (the tolerance of a session, the time since it was heard
-- of, a timestamp after 2262), which C++ leaves undefined, the model wraps round (wrap64). The
-- tags of a body are 32-bit numbers, read the way a wrapping machine reads them where the source
-- overflows a signed one.
--
-- The file system. Which paths are directories or files, what a directory lists (in some order,
-- with the entry at which an error ends the loop) and what a file holds is a record of functions
-- that the code asks; nothing is assumed of them. Paths are joined as on a POSIX system.
--
-- The queue. A step is one access to shared memory by one thread, and the accesses of all threads
-- are taken in one order: weaker orders of the relaxed loads are not modelled. The capacity is a
-- number above 1, and `pos & mask_` is the remainder by it, as it is for a power of two. The
-- theorems speak of runs of fewer than 2 ^ 63 steps, so that no position wraps round.
--
-- Fuel. The loops of parse_fix_fields, redact_free_text, mask_fix_body, poll and send_all run on
-- fuel, one more than the bytes of their input: each round takes at least one byte. The loop of next_pow2 runs
-- on 64: it doubles 2 at most 62 times before it reaches 2 ^ 63, and never ends above that; such a
-- load has no configuration in the model, which the start of the program does not tell from an error.
--
-- Parameters. timegm of the C library, and std::regex_search and std::stoull of the C++ library,
-- are arguments of what calls them; nothing is assumed of them. The time of now_ns is an
-- argument.
--
-- SQLite is a parameter too: a type of databases and what each call makes of one. The theorem on
-- the pipeline assumes what SQLite documents of the calls that answer success, on a connection that
-- writes alone (IsSqlite); of a call that fails it assumes nothing.
--
-- The sockets of the HTTP server are parameters as well: send and recv on a connection, and the
-- answers of the other calls. That send takes bytes in their order is a hypothesis where it is used
-- (TakesInOrder). A double is its bits; how numbers become doubles, and doubles text, is a parameter.
--
-- Not modelled. How threads are scheduled, and signals; what the program prints to the error stream
-- and once its loop runs; the text of the SQL schema.
pub mod Prelude
pub mod Event
pub mod HttpServer
pub mod Body
pub mod FixParser
pub mod SessionState
pub mod Redact
pub mod Config
pub mod MpmcQueue
pub mod TailReader
pub mod Metrics
pub mod Adapters
pub mod QuickFix
pub mod EventStore
pub mod Pipeline
