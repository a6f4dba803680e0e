-- ===== src/Main.antt =====
-- server/main.go: the arguments and the command line. The setup is in Main.Setup, `argsToMap` in
-- Main.Args, `doTunnelCmd` in Main.TunnelCmd, and the end of `main`, behind the start of the API server,
-- in Main.Run.
pub mod Ends
pub mod Setup
pub mod Args
pub mod TunnelCmd
pub mod Starts
pub mod Signals
pub mod Run
pub mod Stays
use container_cloudlet.Common.{
  ℕ, zero, suc, String, Bool, true, false, Option, none, some, List, [], ◌∷◌, ltb, length,
  if◌then◌else◌, ◌==◌, string_eq,
}
use container_cloudlet.Logger.{
  Slog, verbosity_info, verbosity_debug, verbosity_trace, set_verbosity,
}

-- What the loop over the arguments sets, and what it warns of.
pub record Settings : Type 0 where
  pub logger : Slog
  pub interactive : Bool
  pub ignored : List String

abbrev pub at_start : Settings
at_start = record {
  logger = record { verbosity = verbosity_info };
  interactive = false;
  ignored = [];
}

unfoldable pub read_arg : Settings → String → Settings
unfolding set_verbosity
read_arg s arg =
    if arg == "-v"
    then record s { logger = set_verbosity verbosity_debug s.logger }
    else if arg == "-vv"
    then record s { logger = set_verbosity verbosity_trace s.logger }
    else if arg == "-i"
    then record s { interactive = true }
    else record s { ignored = arg ∷ s.ignored }

unfoldable pub read_args : Settings → List String → Settings
unfolding read_arg
read_args s [] = s
read_args s (arg ∷ args) = read_args (read_arg s arg) args

-- What a line of the command line makes the loop do.
pub data Command : Type 0 where
  empty quit : Command
  tunnel_usage : Command
  tunnel : (local_addr remote_addr : String) → Command
  unsupported : String → Command

-- `doTunnelCmd`, up to its use of the client
abbrev tunnel_command : List String → Command
tunnel_command (cmd ∷ local_addr ∷ remote_addr ∷ rest) = tunnel local_addr remote_addr
tunnel_command args = tunnel_usage

-- The fields of a line.
unfoldable pub command : List String → Command
command [] = empty
command (cmd ∷ args) =
    if cmd == "/q"
    then quit
    else if cmd == "quit"
    then quit
    else if cmd == "tunnel"
    then tunnel_command (cmd ∷ args)
    else unsupported cmd

-- The commands that were run, and whether the loop returned.
pub record Console : Type 0 where
  pub ran : List Command
  pub returned : Bool

abbrev prepend : Command → Console → Console
prepend c rest = record rest { ran = c ∷ rest.ran }

abbrev go_on : Command → Console → Console
go_on quit rest = record { ran = []; returned = true }
go_on empty rest = rest
go_on c rest = prepend c rest

-- `startCommandLine` for some rounds, over the fields of the lines. At the end of the input `Scan`
-- answers false, which is not looked at, and `Text` the empty line.
unfoldable pub start_command_line : ℕ → List (List String) → Console
unfolding command
start_command_line zero lines = record { ran = []; returned = false }
start_command_line (suc n) [] = go_on (command []) (start_command_line n [])
start_command_line (suc n) (l ∷ lines) = go_on (command l) (start_command_line n lines)
