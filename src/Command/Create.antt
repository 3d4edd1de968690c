-- ===== src/Command/Create.antt =====
-- `doCreate` of src/runw.cpp, and `doRunInternal` up to its second fork: what the caller of `create` and
-- the processes between it and the container's process do.
use runw.Common.{
  ℕ, ◌==◌, ℤ, pos, negsuc, Bool, true, false, ◌&&◌, not, Option, none, some, List, [], ◌∷◌, Text,
  if◌then◌else◌, ltb, length,
}
use runw.Json.{Simdjson}
use runw.Disk.{Disk, Os, fifo, put, remove_all}
use runw.Disk.AtomicFile.{atomic_create}
use runw.State.{State, fresh, set_creating, set_systemd_cgroup}
use runw.State.Load.{load_bundle}
use runw.State.Print.{print}
use runw.Command.{Exit, success, failure, container_root, state_file, exec_fifo, readable}

-- The parent's read of the pipe: it completes, with a reply or at the end of file, or fails with EINTR
-- or with another error.
pub data PipeRead : Type 0 where
  completes interrupted broken : PipeRead

-- What the calls of `create` meet.
pub record Launch : Type 0 where
  pub makes_directories : Disk → Text → Option Disk
  pub makes_fifo : Bool
  pub opens_fifo : Bool
  pub makes_pipe : Bool
  pub forks_child : Bool
  pub pipe_read : PipeRead
  pub makes_session : Bool
  pub forks_daemon : Bool
  pub makes_socket : Bool
  pub connects : Text → Bool
  -- The engine, from the start of `doRunInternal`: the load of the file, its cache path, the
  -- compilation where there is no compiled file, and the load, validation and instantiation of the
  -- compiled module.
  pub loads_file : Bool
  pub has_cache_path : Bool
  pub has_compiled : Bool
  pub forks_compiler : Bool
  pub compiler_exit : ℤ
  pub loads_module : Bool
  pub forks_container : Bool
  -- The value that the container's process writes to the pipe, if it does so before the daemon replies.
  pub container_first : Option ℤ

-- What the daemon writes to the pipe (`none`: it ends before), and whether the container's process is
-- there.
pub record Daemon : Type 0 where
  pub reply : Option ℤ
  pub container : Bool
  -- Whether a scope exit of the child or the daemon removes the container's directory.
  pub removes : Bool

abbrev pub refused : Daemon
refused = record { reply = none; container = false; removes = true }

abbrev failed : Daemon
failed = record { reply = some (pos 1); container = false; removes = false }

abbrev pub is_zero : ℤ → Bool
is_zero (pos n) = n == 0
is_zero (negsuc n) = false

-- `doRunInternal` in the daemon.
unfoldable pub prepare_module : Launch → Bool
prepare_module l =
    l.loads_file
    && (l.has_cache_path
        && ((if l.has_compiled then true else l.forks_compiler && is_zero l.compiler_exit)
            && l.loads_module))

abbrev pub first_reply : Option ℤ → Option ℤ
first_reply none = some (pos 0)
first_reply (some code) = some code

unfoldable pub run_daemon : Launch → Daemon
unfolding prepare_module
run_daemon l =
    if prepare_module l && l.forks_container
    then record { reply = first_reply l.container_first; container = true; removes = false }
    else failed

-- `sizeof(sockaddr_un::sun_path)`.
abbrev pub sun_path_size : ℕ
sun_path_size = 108

-- The console socket, if one is given.
unfoldable pub connect_console : Launch → Text → Bool
connect_console l [] = true
connect_console l (c ∷ path) =
    l.makes_socket && (ltb (length (c ∷ path)) sun_path_size && l.connects (c ∷ path))

-- The child, and the daemon that it forks.
unfoldable pub run_child : Launch → Text → Daemon
unfolding run_daemon connect_console
run_child l console =
    if l.makes_session && (l.forks_daemon && connect_console l console)
    then run_daemon l
    else refused

-- A reply other than 0 and an error are failures. The end of file and EINTR are not: `continue` leaves
-- the loop, whose condition is false.
abbrev pub accepts : Option ℤ → Bool
accepts none = true
accepts (some code) = is_zero code

unfoldable pub parent_succeeds : PipeRead → Option ℤ → Bool
parent_succeeds completes reply = accepts reply
parent_succeeds interrupted reply = true
parent_succeeds broken reply = false

-- `BOOST_SCOPE_EXIT_ALL`: the directory is removed unless `Success`.
abbrev pub cleaned : Os → Text → Bool → Disk → Disk
cleaned os root keep d = if keep then d else (remove_all os d root).0

-- The exit code of the command, whether the container's process runs, and the disk that it finds.
pub record Created : Type 0 where
  pub exit : Exit
  pub container : Bool
  pub disk : Disk

abbrev pub given_up : Os → Text → Disk → Created
given_up os root d = record { exit = failure; container = false; disk = cleaned os root false d }

-- The two forks, and the wait for the reply.
unfoldable pub launch : Os → Launch → Text → Text → Disk → Created
unfolding run_child parent_succeeds
launch os l root console d =
    let daemon = run_child l console in
    let ok = parent_succeeds l.pipe_read daemon.reply in
    record {
      exit = if ok then success else failure;
      container = daemon.container;
      disk = cleaned os root ok (cleaned os root (not daemon.removes) d);
    }

-- The fifo and the pipe.
unfoldable pub with_fifo : Os → Launch → Text → Text → Text → Disk → Created
unfolding launch
with_fifo os l root fifo_path console d =
    if l.makes_fifo
    then (let d' = put d fifo_path (some fifo) in
        if l.opens_fifo && (l.makes_pipe && l.forks_child)
        then launch os l root console d'
        else given_up os root d')
    else given_up os root d

-- `none`: the process looks for a temporary name.
abbrev pub after_state : Os → Text → Option (Bool × Disk) → (Disk → Created) → Option Created
after_state os root none k = none
after_state os root (some (true, d)) k = some (k d)
after_state os root (some (false, d)) k = some (given_up os root d)

-- The state that `create` writes first.
unfoldable pub first_state : Bool → State → State
first_state systemd s = set_creating (set_systemd_cgroup systemd s)

abbrev pub loaded_bundle :
    Os → Launch → List Text → Text → Text → Text → Bool → Disk → State × Bool → Option Created
loaded_bundle os l suffixes root id console systemd d (s, false) =
    some (given_up os (container_root root id) d)
loaded_bundle os l suffixes root id console systemd d (s, true) =
    after_state os (container_root root id)
      (atomic_create os suffixes (state_file root id) (print (first_state systemd s)) d)
      (with_fifo os l (container_root root id) (exec_fifo root id) console)

abbrev pub with_directory :
    Simdjson
    → Os
    → Launch
    → List Text
    → Text
    → Bool
    → Text
    → Text
    → Text
    → Text
    → Option Disk
    → Disk
    → Option Created
with_directory S os l suffixes root systemd config_name id path console none d =
    some (record { exit = failure; container = false; disk = d })
with_directory S os l suffixes root systemd config_name id path console (some d) _ =
    loaded_bundle os l suffixes root id console systemd d
      (load_bundle S (readable os d) config_name (fresh id path))

unfoldable pub do_create :
    Simdjson
    → Os
    → Launch
    → List Text
    → Text
    → Bool
    → Text
    → Text
    → Text
    → Text
    → Disk
    → Option Created
unfolding with_fifo first_state
do_create S os l suffixes root systemd config_name id path console d =
    with_directory S os l suffixes root systemd config_name id path console
      (l.makes_directories d (container_root root id)) d
