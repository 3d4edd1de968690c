-- ===== src/Examples/CreateRuns.antt =====
-- The creation of a container and a run of its process, and the theorems on them.
use runw.SdBus.Dialogue.{◌>>=◌}
use runw.CGroup.Enter.{request, open_bus}
use runw.CGroup.JobStatus.{job_removed}
use runw.SdBus.{method_call, call, read_object, Library}
use runw.Common.{
  ℤ, List, ◌≤◌, ◌≡◌, refl, pos, true, false, some, none, Option, [], ◌∷◌, codes, text_eq,
  if◌then◌else◌,
}
use runw.FilePath.{join}
use runw.Loader.{each}
use runw.Bundle.{NamespaceDesc}
use runw.Bundle.Load
use runw.Disk.{file, dir, Disk, Os, put, is_below}
use runw.Disk.TempFile.{get_temp_filename, open_append}
use runw.Disk.AtomicFile.{atomic_create, atomic_update, replace_file}
use runw.State.{State, fresh, set_created, set_running}
use runw.State.Load.{load_bundle}
use runw.State.Status.{StatusCode}
use runw.State.Document.{read_document}
use runw.State.Escape.{read_string}
use runw.State.Print.{print}
use runw.State.Reference.{reference}
use runw.Command.{success, failure}
use runw.Command.Create.{
  Launch, Created, completes, do_create, with_fifo, launch, run_child, run_daemon, prepare_module,
  connect_console, parent_succeeds,
}
use runw.Command.Created.{do_create_gone, refused_console}
use runw.Command.Ready.{Ready, do_create-Ready}
use runw.Container.Namespaces.{Kernel, enter_namespaces, all_wanted, enter_namespaces_lem}
use runw.Container.Run.{Run, run_container}
use runw.Container.Recorded.{Recorded, run_container-Recorded}
use runw.Container.Lifecycle.{Reached, here, after, run, SameContainer, only_forward}

abbrev pub willing : Os
willing = record {
  opens = λ d p. true;
  reads = λ d p. true;
  stored = λ d p t. t;
  renames = λ d p q. true;
  removes = λ d p. true;
  clears = λ d id q. is_below (join (codes "/cache") id) q;
  leaves = λ d p q. false;
  unlinks = λ d p. true;
  has_reader = λ d p. true;
  writes_fifo = λ d p. true;
  delivers = λ pid signal. true;
}

abbrev pub plain : Launch
plain = record {
  makes_directories = λ d p. some (put d p (some dir));
  makes_fifo = true;
  opens_fifo = true;
  makes_pipe = true;
  forks_child = true;
  pipe_read = completes;
  makes_session = true;
  forks_daemon = true;
  makes_socket = true;
  connects = λ p. false;
  loads_file = true;
  has_cache_path = true;
  has_compiled = true;
  forks_compiler = true;
  compiler_exit = pos 0;
  loads_module = true;
  forks_container = true;
  container_first = none;
}

abbrev no_pipe : Launch
no_pipe = record plain { makes_pipe = false }

abbrev pub bundle_only : Disk
bundle_only = record {
  node = λ p.
      if text_eq p (codes "/b/config.json")
      then some (file (codes "{\"ociVersion\":\"1.0.2\"}\n"))
      else none;
}

abbrev nothing : Created
nothing = record { exit = failure; container = false; disk = bundle_only }

abbrev or_nothing : Option Created → Created
or_nothing none = nothing
or_nothing (some c) = c

abbrev create_c1 : Launch → Option Created
create_c1 l =
    do_create reference willing l (codes "abcdef" ∷ []) (codes "/r") false (codes "config.json")
      (codes "c1") (codes "/b") [] bundle_only

abbrev pub made : Created
made = or_nothing (create_c1 plain)

abbrev given : Created
given = or_nothing (create_c1 no_pipe)

pub made_is : create_c1 plain ≡ some made
unfolding do_create load_bundle join text_eq put atomic_create get_temp_filename replace_file
    Load.load Load.load_config Load.load_field each read_document read_string
made_is = refl

pub made_succeeds : (made.exit ≡ success) × (made.container ≡ true)
unfolding do_create load_bundle join text_eq put atomic_create get_temp_filename replace_file
    Load.load Load.load_config Load.load_field each read_document read_string with_fifo launch
    run_child run_daemon prepare_module connect_console parent_succeeds
made_succeeds = (refl, refl)

do_create-Ready_example : Ready (codes "/r") (codes "c1") (codes "/b") made.disk
do_create-Ready_example =
    do_create-Ready reference willing (λ d p t. refl) plain (codes "abcdef" ∷ []) (refl, tt)
      (codes "/r") false (codes "config.json") (codes "c1") (codes "/b") [] bundle_only _ made refl
      made_is made_succeeds.0 made_succeeds.1

given_is : create_c1 no_pipe ≡ some given
unfolding do_create load_bundle join text_eq put atomic_create get_temp_filename replace_file
    Load.load Load.load_config Load.load_field each read_document read_string
given_is = refl

given_fails : given.exit ≡ failure
unfolding do_create load_bundle join text_eq put atomic_create get_temp_filename replace_file
    Load.load Load.load_config Load.load_field each read_document read_string with_fifo
given_fails = refl

do_create_gone_example : given.disk.node (codes "/r/c1/state.json") ≡ none
unfolding is_below join
do_create_gone_example =
    do_create_gone reference willing (λ d p. refl) no_pipe (codes "abcdef" ∷ []) (codes "/r") false
      (codes "config.json") (codes "c1") (codes "/b") [] (codes "/r/c1/state.json") bundle_only _
      given refl given_is given_fails refl

refused_console_example :
    ((launch willing plain (codes "/r") (codes "/tmp/s") bundle_only).exit ≡ success)
    × ((launch willing plain (codes "/r") (codes "/tmp/s") bundle_only).container ≡ false)
    × ((launch willing plain (codes "/r") (codes "/tmp/s") bundle_only).disk.node
          (codes "/r/state.json")
        ≡ none)
unfolding is_below connect_console
refused_console_example =
    refused_console willing (λ d p. refl) plain (codes "/r") (codes "/tmp/s")
      (codes "/r/state.json") bundle_only refl refl refl

abbrev kernel : Kernel
kernel = record { opens_namespace = λ p. true; joins_namespace = λ x. text_eq x.0 (codes "/n") }

abbrev pub accepting : Library
accepting log = record { code = pos 0; errno = pos 0; object = codes "/j/1" }

abbrev pub process : Run
process = record {
  pid_suffixes = codes "aaaaaa" ∷ [];
  created_suffixes = codes "bbbbbb" ∷ [];
  running_suffixes = codes "cccccc" ∷ [];
  stopped_suffixes = codes "dddddd" ∷ [];
  created_at = codes "1970-01-01T00:00:00Z";
  started_at = codes "1970-01-01T00:00:01Z";
  finished_at = codes "1970-01-01T00:00:02Z";
  pid = pos 7;
  kernel = kernel;
  bus = accepting;
  rounds = job_removed (codes "/j/1") (codes "done") ∷ [];
  selects_fifo = true;
  reads_fifo = true;
  program_exit = some (pos 3);
}

abbrev pub first_of_c1 : State
first_of_c1 = record (fresh (codes "c1") (codes "/b")) { status = StatusCode.creating }

abbrev before : Disk
before = record {
  node = λ p. if text_eq p (codes "/s") then some (file (print first_of_c1)) else none;
}

-- A whole run: the exit code of the program, and a stopped state in the file.
abbrev exit_code_of : Option (ℤ × Disk) → Option ℤ
exit_code_of none = none
exit_code_of (some (code, d)) = some code

whole_run :
    exit_code_of (run_container willing process true (codes "/p") (codes "/s") first_of_c1 before)
    ≡ some (pos 3)
unfolding run_container put text_eq atomic_create atomic_update replace_file get_temp_filename
    open_append enter_namespaces each set_created ◌>>=◌ open_bus request method_call call
    read_object
whole_run = refl

run_container-Recorded_example :
    Recorded first_of_c1
      (codes "/s")
      (run_container willing process true (codes "/p") (codes "/s") first_of_c1 before)
unfolding text_eq
run_container-Recorded_example =
    run_container-Recorded willing (λ d p t. refl) process (refl, tt) (refl, tt) (refl, tt)
      (refl, tt) true (codes "/p") (codes "/s") first_of_c1 before (refl, tt) refl refl refl

abbrev created_c1 : State
created_c1 = record first_of_c1 { status = StatusCode.created; pid = pos 7 }

abbrev running_c1 : State
running_c1 = record created_c1 { status = StatusCode.running; started_timestamp = codes "now" }

gets_to_run : Reached created_c1 running_c1
unfolding set_running
gets_to_run = after created_c1 running_c1 here (run created_c1 (codes "now") refl)

only_forward_example : SameContainer created_c1 running_c1 × (2 ≤ 3)
only_forward_example = only_forward created_c1 running_c1 gets_to_run

abbrev namespaces : List NamespaceDesc
namespaces =
    record { type = codes "network"; path = codes "/n" }
    ∷ record { type = codes "pid"; path = [] }
    ∷ record { type = codes "other"; path = codes "/o" }
    ∷ []

enter_namespaces_lem_example : enter_namespaces kernel namespaces ≡ all_wanted kernel namespaces
enter_namespaces_lem_example = enter_namespaces_lem kernel namespaces

namespaces_entered : enter_namespaces kernel namespaces ≡ true
unfolding enter_namespaces each text_eq
namespaces_entered = refl
