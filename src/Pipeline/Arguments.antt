-- ===== src/Pipeline/Arguments.antt =====
-- The command line of fix_monitor/src/main.cpp.
use fix_mon.Prelude.{
  Bool, true, false, ◌&&◌, ◌||◌, List, [], ◌∷◌, ◌++◌, Bytes, codes, is_empty, ◌==◌, if◌then◌else◌,
  eq_text,
}

-- What the arguments ask for. A refusal has its message; the program then ends with code 2.
pub data Command : Type 0 where
  version : Command
  help : Command
  refused : Bytes → Command
  run : Bytes → List Bytes → Bool → Command

pub record Arguments : Type 0 where
  pub ini_path : Bytes
  pub quickfix_paths : List Bytes
  pub print_only : Bool

abbrev pub no_arguments : Arguments
no_arguments = record { ini_path = []; quickfix_paths = []; print_only = false }

abbrev starts_dash : Bytes → Bool
starts_dash [] = false
starts_dash (c ∷ cs) = c == b'-'

abbrev either : Bytes → Bytes → Bytes → Bool
either arg a b = eq_text arg a || eq_text arg b

-- after the last argument
unfoldable pub settled : Arguments → Command
settled a =
    if is_empty a.ini_path && is_empty a.quickfix_paths
    then Command.refused (codes "usage")
    else Command.run a.ini_path a.quickfix_paths a.print_only

-- The loop over the arguments behind the program's name; `--quickfix` takes the next one with it.
unfoldable pub read_arguments : List Bytes → Arguments → Command
read_arguments [] a = settled a
read_arguments (arg ∷ []) a =
    if either arg (codes "--version") (codes "-v")
    then Command.version
    else if either arg (codes "--help") (codes "-h")
    then Command.help
    else if either arg (codes "--quickfix") (codes "-q")
    then Command.refused (codes "--quickfix needs a path to a QuickFIX cfg file")
    else if eq_text arg (codes "--print-config")
    then settled (record a { print_only = true })
    else if starts_dash arg
    then Command.refused (codes "unknown option: " ++ arg)
    else if is_empty a.ini_path
    then settled (record a { ini_path = arg })
    else Command.refused (codes "unexpected argument: " ++ arg)
read_arguments (arg ∷ (next ∷ args)) a =
    let flagged = read_arguments (next ∷ args) (record a { print_only = true }) in
    let named = read_arguments (next ∷ args) (record a { ini_path = arg }) in
    let with_path =
      read_arguments args (record a { quickfix_paths = a.quickfix_paths ++ next ∷ [] }) in
    if either arg (codes "--version") (codes "-v")
    then Command.version
    else if either arg (codes "--help") (codes "-h")
    then Command.help
    else if either arg (codes "--quickfix") (codes "-q")
    then with_path
    else if eq_text arg (codes "--print-config")
    then flagged
    else if starts_dash arg
    then Command.refused (codes "unknown option: " ++ arg)
    else if is_empty a.ini_path
    then named
    else Command.refused (codes "unexpected argument: " ++ arg)
