-- ===== src/Container/Run.antt =====
-- `doRunInternal` of src/runw.cpp in the child of its second fork: from the pid file to the value that it
-- returns.
use runw.Common.{ℤ, pos, Bool, true, false, Option, none, some, List, [], Text, if◌then◌else◌}
use runw.State.{State, get_pid, set_created, set_running, set_stopped}
use runw.State.Decimal.{print_int}
use runw.State.Print.{print}
use runw.Disk.{Disk, Os}
use runw.Disk.AtomicFile.{atomic_create, atomic_update}
use runw.SdBus.{Library}
use runw.CGroup.JobStatus.{Round, Checked, finished, fails}
use runw.CGroup.Enter.{enter}
use runw.Container.Namespaces.{Kernel, enter_namespaces}

-- What one run of the process meets: the suffixes drawn for each file, the times, its process id, what
-- the kernel grants, what the bus answers and how it goes on, and how the program ends (`none`: the engine failed).
pub record Run : Type 0 where
  pub pid_suffixes : List Text
  pub created_suffixes : List Text
  pub running_suffixes : List Text
  pub stopped_suffixes : List Text
  pub created_at : Text
  pub started_at : Text
  pub finished_at : Text
  pub pid : ℤ
  pub kernel : Kernel
  pub bus : Library
  pub rounds : List Round
  pub selects_fifo : Bool
  pub reads_fifo : Bool
  pub program_exit : Option ℤ

-- The value that `doRunInternal` returns, and the disk. The process itself goes on to write the value to
-- the pipe, and then ends without it. `none`: the process looks for a temporary name, or waits for systemd.
abbrev pub Outcome : Type 0
Outcome = Option (ℤ × Disk)

abbrev pub exit_failure : ℤ
exit_failure = pos 1

-- `if (!atomic...(...)) return EXIT_FAILURE;` and the rest.
abbrev pub written : Option (Bool × Disk) → (Disk → Outcome) → Outcome
written none k = none
written (some (true, d)) k = k d
written (some (false, d)) k = some (exit_failure, d)

abbrev pub exit_of : Option ℤ → ℤ
exit_of none = exit_failure
exit_of (some code) = code

unfoldable pub after_program : Os → Run → Text → State → Disk → Outcome
after_program os r state_file s d =
    let code = exit_of r.program_exit in
    written
      (atomic_update os r.stopped_suffixes state_file (print (set_stopped code r.finished_at s)) d)
      λ d'. some (code, d')

unfoldable pub run_program : Os → Run → Text → State → Disk → Outcome
unfolding after_program
run_program os r state_file s d =
    let s' = set_running r.started_at s in
    written (atomic_update os r.running_suffixes state_file (print s') d)
      (after_program os r state_file s')

-- The wait for `start`, if there is a fifo.
unfoldable pub wait_for_start : Os → Run → Bool → Text → State → Disk → Outcome
unfolding run_program
wait_for_start os r has_fifo state_file s d =
    if has_fifo
    then (if r.selects_fifo
        then (if r.reads_fifo then run_program os r state_file s d else some (exit_failure, d))
        else some (exit_failure, d))
    else run_program os r state_file s d

-- `if (auto Res = RUNW::CGroup::enter(...); !Res) return EXIT_FAILURE;` and the rest.
abbrev pub entered : Option Checked → Disk → Outcome → Outcome
entered none d k = none
entered (some finished) d k = k
entered (some (fails e)) d k = some (exit_failure, d)

unfoldable pub record_created : Os → Run → Bool → Text → State → Disk → Outcome
unfolding wait_for_start enter get_pid
record_created os r has_fifo state_file s d =
    if enter_namespaces r.kernel s.config.namespaces
    then entered (enter r.bus r.rounds s.container_id s.config.cgroups_path (get_pid s)).0 d (
        written (atomic_update os r.created_suffixes state_file (print s) d)
          (wait_for_start os r has_fifo state_file s))
    else some (exit_failure, d)

unfoldable pub run_container : Os → Run → Bool → Text → Text → State → Disk → Outcome
unfolding record_created
run_container os r has_fifo pid_file state_file s d =
    written (atomic_create os r.pid_suffixes pid_file (print_int r.pid []) d)
      (record_created os r has_fifo state_file (set_created r.created_at r.pid s))
