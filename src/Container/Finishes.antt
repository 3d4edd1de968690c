-- ===== src/Container/Finishes.antt =====
-- A run of the container's process in src/runw.cpp that nothing stands in the way of.
use runw.Common.{◌≡◌, ℤ, some, Text}
use runw.State.{State, set_created, set_running, set_stopped}
use runw.State.Print.{print}
use runw.Disk.{Disk, file}
use runw.Container.Run.{Run, Outcome, exit_of}

-- `doRunInternal` returns the code, and the file has the text of the state.
pub record Ends (code : ℤ) (state_file : Text) (s : State) (o : Outcome) : Type 0 where
  pub left : Disk
  pub ends : o ≡ some (code, left)
  pub here : left.node state_file ≡ some (file (print s))

-- The last state of a run.
abbrev pub last_state : Run → State → State
last_state r s =
    set_stopped (exit_of r.program_exit) r.finished_at
      (set_running r.started_at (set_created r.created_at r.pid s))
