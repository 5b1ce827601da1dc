-- ===== src/Pipeline/Startup.antt =====
-- `main` of fix_monitor/src/main.cpp up to its loop: what it prints, what it opens and starts, and
-- how it ends if it does. Whether the database, the memory of the queue and the port can be had are
-- arguments.
use fix_mon.Prelude.{
  ℕ, ◌+◌, Bool, Option, none, some, List, [], ◌∷◌, ◌++◌, Bytes, codes, is_empty, if◌then◌else◌,
  to_string,
}
use fix_mon.QuickFix.Logs.{FileSystem}
use fix_mon.Config.Load.{AppConfig}
use fix_mon.Config.Session.{SessionConfig}
use fix_mon.Config.Import.{load_config, config_from_quickfix}
use fix_mon.Pipeline.Arguments.{Command, no_arguments, read_arguments}
use fix_mon.Pipeline.Loop.{attached}
use fix_mon.Pipeline.Printed.{print_session, print_data_policy, print_notes}

-- what changes the world outside
pub data Effect : Type 0 where
  opens_store : Bytes → Effect
  closes_store : Effect
  starts_adapters : ℕ → Effect
  binds_port : ℕ → Effect

-- the loop begins, `main` returns a code, or an exception leaves it: then no destructor runs
pub data Ending : Type 0 where
  in_loop : Ending
  returns : ℕ → Ending
  aborts : Ending

pub record StartUp : Type 0 where
  pub ending : Ending
  pub effects : List Effect
  pub out : Bytes

unfoldable pub print_sessions : List SessionConfig → Bytes
print_sessions [] = []
print_sessions (sc ∷ scs) = print_session sc (attached sc) ++ print_sessions scs

unfoldable pub count_adapters : List SessionConfig → ℕ
count_adapters [] = 0
count_adapters (sc ∷ scs) = attached sc + count_adapters scs

-- `--print-config`
unfoldable pub print_config : AppConfig → StartUp
print_config cfg = record {
  ending = Ending.returns 0;
  effects = [];
  out =
      print_notes cfg.notes
      ++ print_sessions cfg.sessions
      ++ codes "event store: "
      ++ cfg.db_path
      ++ codes " (not opened)\nmetrics port: "
      ++ to_string cfg.metrics_port
      ++ codes " (not bound)\n"
      ++ print_data_policy cfg;
}

-- from the ini file, or from the engine's own files
abbrev pub read_config : FileSystem → Bytes → List Bytes → Option AppConfig
read_config fs ini_path quickfix_paths =
    if is_empty ini_path
    then config_from_quickfix fs quickfix_paths
    else load_config fs ini_path quickfix_paths

module _ (opens : Bytes → Bool) (allocates binds : ℕ → Bool) where
  unfoldable pub start_http : AppConfig → Bytes → StartUp
  start_http cfg out =
      let before : List Effect =
        Effect.opens_store cfg.db_path
        ∷ Effect.starts_adapters (count_adapters cfg.sessions)
        ∷ Effect.binds_port cfg.metrics_port
        ∷ [] in
      if binds cfg.metrics_port
      then record {
        ending = Ending.in_loop;
        effects = before;
        out =
            out
            ++ codes "metrics: http://0.0.0.0:"
            ++ to_string cfg.metrics_port
            ++ codes "/metrics\n";
      }
      else record {
        ending = Ending.returns 1;
        effects = before ++ Effect.closes_store ∷ [];
        out = out;
      }

  -- The cells of the queue are allocated outside of any `try`, with the database open.
  unfoldable pub open_and_start : AppConfig → StartUp
  open_and_start cfg =
      let out : Bytes =
        print_notes cfg.notes
        ++ codes "event store: "
        ++ cfg.db_path
        ++ codes "\n"
        ++ print_data_policy cfg in
      if opens cfg.db_path
      then (if allocates cfg.queue_capacity
          then start_http cfg (out ++ print_sessions cfg.sessions)
          else record {
            ending = Ending.aborts;
            effects = Effect.opens_store cfg.db_path ∷ [];
            out = out;
          })
      else record {
        ending = Ending.returns 1;
        effects = Effect.opens_store cfg.db_path ∷ [];
        out = print_notes cfg.notes;
      }

  -- `none` where reading the configuration throws; or, in the model only, where it never ends
  -- because `queue_size` is above 2 ^ 63
  abbrev pub with_config : Bool → Option AppConfig → StartUp
  with_config print_only none = record { ending = Ending.returns 2; effects = []; out = [] }
  with_config print_only (some cfg) = if print_only then print_config cfg else open_and_start cfg

  -- `version` is what the build defines; the usage text goes to the error stream
  unfoldable pub obey : FileSystem → Bytes → Command → StartUp
  obey fs version Command.version = record {
    ending = Ending.returns 0;
    effects = [];
    out = codes "fixmon " ++ version ++ codes "\n";
  }
  obey fs version Command.help = record { ending = Ending.returns 0; effects = []; out = [] }
  obey fs version (Command.refused why) = record {
    ending = Ending.returns 2;
    effects = [];
    out = [];
  }
  obey fs version (Command.run ini_path quickfix_paths print_only) =
      with_config print_only (read_config fs ini_path quickfix_paths)

  unfoldable pub start_up : FileSystem → Bytes → List Bytes → StartUp
  start_up fs version args = obey fs version (read_arguments args no_arguments)
