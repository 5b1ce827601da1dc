-- ===== src/Pipeline/Orderly.antt =====
-- How `main` of fix_monitor/src/main.cpp ends where it does not come to its loop.
use fix_mon.Prelude.{
  ℕ, ◌≡◌, refl, ap, ◌∙◌, ◌⊎◌, Bool, true, false, Option, none, some, List, [], ◌∷◌, Bytes,
}
use fix_mon.QuickFix.Logs.{FileSystem}
use fix_mon.Config.Load.{AppConfig}
use fix_mon.Pipeline.Arguments.{Command, no_arguments, read_arguments}
use fix_mon.Pipeline.Startup.{
  Effect, Ending, StartUp, read_config, print_config, with_config, obey, start_up,
}

-- the configuration that the arguments ask for, if they ask for one, can be read
abbrev pub IsConfigured : FileSystem → Command → Type 0
IsConfigured fs (Command.run ini paths print_only) =
    (cfg : AppConfig) × (read_config fs ini paths ≡ some cfg)
IsConfigured fs other = Unit

module _ (opens : Bytes → Bool) (allocates binds : ℕ → Bool) where
  -- the ways in which the program may end or go on
  pub data Orderly : StartUp → Type 0 where
    untouched :
        {s : StartUp} (code : ℕ)
        → s.ending ≡ Ending.returns code
        → (code ≡ 0) ⊎ (code ≡ 2)
        → s.effects ≡ []
        → Orderly s
    no_store :
        {s : StartUp} (path : Bytes)
        → s.ending ≡ Ending.returns 1
        → opens path ≡ false
        → s.effects ≡ Effect.opens_store path ∷ []
        → Orderly s
    no_queue :
        {s : StartUp} (path : Bytes) (cells : ℕ)
        → s.ending ≡ Ending.aborts
        → opens path ≡ true
        → allocates cells ≡ false
        → s.effects ≡ Effect.opens_store path ∷ []
        → Orderly s
    no_port :
        {s : StartUp} (path : Bytes) (n port : ℕ)
        → s.ending ≡ Ending.returns 1
        → opens path ≡ true
        → binds port ≡ false
        → s.effects
          ≡ Effect.opens_store path
            ∷ Effect.starts_adapters n
            ∷ Effect.binds_port port
            ∷ Effect.closes_store
            ∷ []
        → Orderly s
    watches :
        {s : StartUp} (path : Bytes) (n port : ℕ)
        → s.ending ≡ Ending.in_loop
        → opens path ≡ true
        → binds port ≡ true
        → s.effects
          ≡ Effect.opens_store path ∷ Effect.starts_adapters n ∷ Effect.binds_port port ∷ []
        → Orderly s

  printed : (cfg : Option AppConfig) → (with_config opens allocates binds true cfg).effects ≡ []
  unfolding print_config
  printed none = refl
  printed (some cfg) = refl

  -- `--print-config` opens and starts nothing, whatever the configuration
  pub print_only_lem :
      (fs : FileSystem) (version : Bytes) (args paths : List Bytes) (ini : Bytes)
      → read_arguments args no_arguments ≡ Command.run ini paths true
      → (start_up opens allocates binds fs version args).effects ≡ []
  unfolding start_up obey
  print_only_lem fs version args paths ini e =
      ap (λ (c : Command). (obey opens allocates binds fs version c).effects) e
      ∙ printed (read_config fs ini paths)
