-- ===== src/Container/Recorded.antt =====
-- What the container's process leaves in the state file, wherever it ends.
use runw.Common.{◌≡◌, Bool, false, some, Text, text_eq, length, All}
use runw.State.{State}
use runw.State.Status.{StatusCode}
use runw.State.Print.{print}
use runw.Disk.{Disk, Os, file}
use runw.Disk.Atomicity.{Apart}
use runw.Container.Run.{Run, Outcome, exit_of, run_container}
use runw.Container.Lifecycle.{Reached, here, after, create, run, stop}
use runw.Container.Left.{Kept, Left, run_container-Left}

-- The file has a state that the container has reached, and a value other than failure comes with
-- a stopped one.
abbrev pub Recorded : State → Text → Outcome → Type 0
Recorded s = Left (Reached s)

pub Reached-Kept : (r : Run) (s : State) → Kept r (Reached s)
Reached-Kept r s = record {
  created = λ t h p. after t _ p (create t r.created_at r.pid h);
  running = λ t h p. after t _ p (run t r.started_at h);
  stopped = λ t h p. after t _ p (stop t (exit_of r.program_exit) r.finished_at h);
}

-- Wherever `doRunInternal` returns in the container's process, whatever the kernel, systemd and the file
-- system refuse, the state file has the text of one state that the container has reached from its first,
-- and a returned value other than 1 comes with a stopped state. Before, the file had the text of the first state, which is
-- creating; texts reach files whole, suffixes have six letters, and the pid file and its temporary
-- names are other files.
pub run_container-Recorded :
    (os : Os)
    → ((d : Disk) (p text : Text) → os.stored d p text ≡ text)
    → (r : Run) → All (λ x. length x ≡ 6) r.pid_suffixes
    → All (λ x. length x ≡ 6) r.created_suffixes
    → All (λ x. length x ≡ 6) r.running_suffixes
    → All (λ x. length x ≡ 6) r.stopped_suffixes
    → (has_fifo : Bool) (pid_file p : Text) (s : State) (d : Disk) → Apart pid_file r.pid_suffixes p
    → text_eq pid_file p ≡ false
    → s.status ≡ StatusCode.creating
    → d.node p ≡ some (file (print s))
    → Recorded s p (run_container os r has_fifo pid_file p s d)
run_container-Recorded os whole r pid_six created_six running_six stopped_six has_fifo pid_file p s
      d apart other status there =
    run_container-Left (Reached s) os whole r (Reached-Kept r s) pid_six created_six running_six
      stopped_six has_fifo pid_file p s d apart other status there here
