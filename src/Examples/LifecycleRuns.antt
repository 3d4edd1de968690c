-- ===== src/Examples/LifecycleRuns.antt =====
-- A container from its creation to the kill after its exit, and the theorems on the way.
use runw.SdBus.Dialogue.{◌>>=◌}
use runw.CGroup.Enter.{request, open_bus}
use runw.SdBus.{method_call, call, read_object}
use runw.Common.{
  Text, arith, ◌≡◌, ◌⊎◌, refl, pos, true, false, some, none, [], ◌∷◌, codes, text_eq, if◌then◌else◌,
}
use runw.FilePath.{join}
use runw.Loader.{each}
use runw.Bundle.{empty_bundle}
use runw.Bundle.Load
use runw.Disk.{file, Disk, put}
use runw.Disk.TempFile.{get_temp_filename, open_append}
use runw.Disk.AtomicFile.{atomic_create, atomic_update, replace_file}
use runw.State.{State, fresh, set_created}
use runw.State.Load as StateLoad
use runw.State.Load.{load_bundle}
use runw.State.Document.{read_document, all_ascii}
use runw.State.Escape.{read_string, all_plain, all_escapable}
use runw.State.Print.{print}
use runw.State.RoundTrip.{Printable, merged}
use runw.State.Status.{StatusCode}
use runw.State.Reference.{reference, reference-IsLawful, reference-ReadsJson}
use runw.Signal.{parse_signal, find_signal, to_upper}
use runw.Command.{success, failure, World, released, emit_event, exec_fifo, state_file, readable}
use runw.Command.Create.{do_create}
use runw.Command.Kill.{do_kill}
use runw.Command.Start.{do_start}
use runw.Command.Started.{create-start}
use runw.Command.Main.{log_path, run_logged, Options, Process, run_main, dispatch}
use runw.Command.Program.{run_main_disk}
use runw.Command.Query.{do_state}
use runw.Container.Namespaces.{enter_namespaces}
use runw.Container.Run.{Outcome, exit_failure, run_container}
use runw.Container.Lifecycle.{Reached}
use runw.Container.Loads.{Fits, run_container_loads, kill_after_exit}
use runw.Examples.CreateRuns.{
  willing, plain, bundle_only, made, made_is, made_succeeds, process, first_of_c1,
}

abbrev new_world : World
new_world = record { disk = bundle_only; events = [] }

create-start_example :
    do_start reference willing
      (codes "/r")
      (codes "config.json")
      (codes "c1")
      (record new_world { disk = made.disk })
    ≡ (
      success,
      emit_event
          (released (exec_fifo (codes "/r") (codes "c1")))
          (record new_world { disk = put made.disk (exec_fifo (codes "/r") (codes "c1")) none }),
    )
unfolding Load.load Load.load_config Load.load_field each read_document read_string text_eq join put
    do_start atomic_create get_temp_filename replace_file all_escapable all_ascii do_create
    load_bundle
create-start_example =
    create-start reference reference-IsLawful reference-ReadsJson willing (λ d p t. refl) plain
      (codes "abcdef" ∷ []) (refl, tt) (codes "/r") false (codes "config.json") (codes "c1")
      (codes "/b") [] bundle_only _ made new_world refl refl refl made_is made_succeeds.0
      made_succeeds.1 refl refl refl refl refl

process-Fits : Fits process
unfolding all_plain all_ascii
process-Fits = record {
  created_time = refl;
  started_time = refl;
  finished_time = refl;
  pid_range = omega arith;
  exit_range = omega arith;
}

-- The disk that the container's process finds, the one that it leaves, and the value that it returns.
abbrev before : Disk
before = record {
  node =
      λ p. if text_eq p (codes "/r/c1/state.json") then some (file (print first_of_c1)) else none;
}

abbrev outcome : Outcome
outcome =
    run_container willing process true (codes "/p") (codes "/r/c1/state.json") first_of_c1 before

abbrev disk_of : Outcome → Disk
disk_of none = before
disk_of (some (code, d)) = d

abbrev left_disk : Disk
left_disk = disk_of outcome

outcome_is : outcome ≡ some (pos 3, left_disk)
unfolding run_container put text_eq atomic_create atomic_update replace_file get_temp_filename
    open_append enter_namespaces each set_created ◌>>=◌ open_bus request method_call call
    read_object
outcome_is = refl

first_of_c1-Printable : Printable first_of_c1
unfolding all_escapable all_ascii all_plain
first_of_c1-Printable = record {
  known = λ e. cc;
  id = refl;
  bundle = refl;
  created_time = refl;
  started_time = refl;
  finished_time = refl;
  pid_range = omega arith;
  exit_range = omega arith;
}

run_container_loads_example :
    (t : State) × Reached first_of_c1 t
    × (StateLoad.load reference
          (readable willing left_disk)
          (state_file (codes "/r") (codes "c1"))
          (codes "config.json")
          (fresh [] [])
        ≡ StateLoad.with_config (merged t (fresh [] [])) (
            Load.load reference
              (readable willing left_disk (join t.bundle_path (codes "config.json")))
              empty_bundle))
    × ((t.status ≡ StatusCode.stopped) ⊎ (pos 3 ≡ exit_failure))
unfolding join text_eq
run_container_loads_example =
    run_container_loads reference reference-IsLawful reference-ReadsJson willing (λ d p t. refl)
      process process-Fits (refl, tt) (refl, tt) (refl, tt) (refl, tt) true (codes "/p")
      (codes "/r") (codes "c1") first_of_c1 before left_disk (pos 3) (refl, tt) refl refl
      first_of_c1-Printable refl outcome_is (codes "config.json") (fresh [] []) refl

term_is_15 : parse_signal (codes "TERM") ≡ some (pos 15)
unfolding parse_signal text_eq to_upper find_signal
term_is_15 = refl

kill_after_exit_example :
    do_kill reference willing
      (codes "/r")
      (codes "config.json")
      (codes "c1")
      (codes "TERM")
      (record new_world { disk = left_disk })
    ≡ some (failure, record new_world { disk = left_disk })
unfolding join text_eq
kill_after_exit_example =
    kill_after_exit reference reference-IsLawful reference-ReadsJson willing (λ d p t. refl) process
      process-Fits (refl, tt) (refl, tt) (refl, tt) (refl, tt) true (codes "/p") (codes "/r")
      (codes "c1") first_of_c1 before left_disk (pos 3) (refl, tt) refl refl first_of_c1-Printable
      refl outcome_is (codes "config.json") (codes "TERM") 15 new_world (λ e. cc) refl term_is_15

-- `runw state c1`.
abbrev state_c1 : Options
state_c1 = record {
  root = codes "/r";
  systemd_cgroup = false;
  config_file_name = codes "config.json";
  container_id = codes "c1";
  path = [];
  console_socket = [];
  pid_file = [];
  force = false;
  signal = [];
  version = false;
  start = false;
  create = false;
  delete = false;
  kill = false;
  state = true;
}

abbrev asks_state : Process
asks_state = record {
  log = λ d. put d log_path (some (file (codes "MainArgs:")));
  json = reference;
  os = willing;
  launch = plain;
  suffixes = [];
  options = some state_c1;
  program = codes "runw";
  version_number = codes "0.1";
}

abbrev world_before : World
world_before = record new_world { disk = before }

abbrev logged : World
logged = record world_before { disk = asks_state.log before }

state_shown :
    run_main asks_state world_before ≡ some (do_state willing (codes "/r") (codes "c1") logged)
unfolding run_main run_logged dispatch
state_shown = refl

log_elsewhere :
    (d : Disk) (q : Text) → text_eq log_path q ≡ false → (asks_state.log d).node q ≡ d.node q
unfolding put
log_elsewhere d q h = ground arith

run_main_disk_example :
    (do_state willing (codes "/r") (codes "c1") logged).1.disk.node (codes "/r/c1/state.json")
    ≡ before.node (codes "/r/c1/state.json")
unfolding text_eq
run_main_disk_example =
    run_main_disk asks_state _ world_before (do_state willing (codes "/r") (codes "c1") logged).1
      (codes "/r/c1/state.json") log_elsewhere refl state_shown refl
