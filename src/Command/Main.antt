-- ===== src/Command/Main.antt =====
-- `main` of src/runw.cpp: the options and the choice of the command.
use runw.Common.{Bool, Option, none, some, List, [], ◌∷◌, ◌++◌, Text, codes, if◌then◌else◌}
use runw.Json.{Simdjson}
use runw.Disk.{Disk, Os}
use runw.Command.{Exit, success, failure, World, printed, emit_event}
use runw.Command.Delete.{do_delete}
use runw.Command.Kill.{do_kill}
use runw.Command.Start.{do_start}
use runw.Command.Query.{do_state}
use runw.Command.Create.{Launch, Created, do_create}

-- What the option parser has read: the values of the options, and which of the flags and subcommands
-- are given.
pub record Options : Type 0 where
  pub root : Text
  pub systemd_cgroup : Bool
  pub config_file_name : Text
  pub container_id : Text
  pub path : Text
  pub console_socket : Text
  pub pid_file : Text
  pub force : Bool
  pub signal : Text
  pub version : Bool
  pub start : Bool
  pub create : Bool
  pub delete : Bool
  pub kill : Bool
  pub state : Bool

-- `ConfigFileName.default_argument()`, the default value of the option.
abbrev pub default_config : Text
default_config = codes "config.json"

unfoldable pub config_name : Text → Text
config_name [] = default_config
config_name (c ∷ name) = c ∷ name

-- The exit code and the world after a `create`.
abbrev pub as_world : World → Option Created → Option (Exit × World)
as_world w none = none
as_world w (some c) = some (c.exit, record w { disk = c.disk })

-- `Argv[0] << " version " << kVersionString << '\n'`.
abbrev pub version_text : Text → Text → Text
version_text program number = program ++ (codes " version " ++ (number ++ 10 ∷ []))

-- `basic_logger_mt("file_logger", "/tmp/runw.log")`.
abbrev pub log_path : Text
log_path = codes "/tmp/runw.log"

-- What comes with the process: what opening and writing the log does to the disk, the parser and the system, the calls that `create` makes, the suffixes
-- that it draws, the option parser with `Argv`, the program's name and the build's version.
pub record Process : Type 1 where
  pub log : Disk → Disk
  pub json : Simdjson
  pub os : Os
  pub launch : Launch
  pub suffixes : List Text
  pub options : Option Options
  pub program : Text
  pub version_number : Text

-- The branches on the subcommands. The usage that is printed at the end is left out.
unfoldable pub dispatch : Process → Options → World → Option (Exit × World)
unfolding config_name
dispatch p o w =
    let config = config_name o.config_file_name in
    if o.start
    then some (do_start p.json p.os o.root config o.container_id w)
    else if o.create
    then as_world w (
        do_create p.json p.os p.launch p.suffixes o.root o.systemd_cgroup config o.container_id
          o.path o.console_socket w.disk)
    else if o.delete
    then some (do_delete p.os o.root o.container_id o.force w)
    else if o.kill
    then do_kill p.json p.os o.root config o.container_id o.signal w
    else if o.state
    then some (do_state p.os o.root o.container_id w)
    else some (failure, w)

-- After the log has been opened.
unfoldable pub run_logged : Process → World → Option (Exit × World)
unfolding dispatch
run_logged p w = elim p.options [
  | none ↦ some (failure, w)
  | some o ↦
      if o.version
      then some (success, emit_event (printed (version_text p.program p.version_number)) w)
      else dispatch p o w
]

-- `none`: a command does not end, or a signal's number overflows. The program is called with options that
-- the parser accepts or not. What it logs later goes to the same file, and is left out.
unfoldable pub run_main : Process → World → Option (Exit × World)
unfolding run_logged
run_main p w = run_logged p (record w { disk = p.log w.disk })
