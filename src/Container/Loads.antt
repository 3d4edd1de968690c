-- ===== src/Container/Loads.antt =====
-- What the later commands make of the state file that the container's process leaves.
use mathlib.Core.Path.{subst}
use runw.Common.{
  ℕ, ◌≡◌, ◌≢◌, ◌∙◌, ℤ, pos, ◌≤ℤ◌, int_min, int_max, Bool, true, false, some, ◌⊎◌, inl, inr, Text,
  text_eq, length, All, arith,
}
use runw.FilePath.{join}
use runw.Json.{Simdjson, IsLawful}
use runw.Bundle.Load
use runw.State.{State, set_created, set_running, set_stopped}
use runw.State.Status.{StatusCode}
use runw.State.Print.{print}
use runw.State.Load as StateLoad
use runw.State.Denotes.{ReadsJson}
use runw.State.RoundTrip.{Printable, time_fits, merged, load-print}
use runw.Disk.{Disk, Os, file}
use runw.Disk.Atomicity.{Apart}
use runw.Signal.{parse_signal}
use runw.Command.{failure, World, state_file, readable}
use runw.Command.Kill.{do_kill_shown, do_kill}
use runw.Container.Run.{Run, exit_failure, exit_of, run_container}
use runw.Container.Lifecycle.{Reached, here}
use runw.Container.Left.{Kept, Left, run_container-Left}
use runw.Container.Recorded.{Reached-Kept}

-- The times, the process id and the exit code of a run can be printed.
pub record Fits (r : Run) : Type 0 where
  pub created_time : time_fits r.created_at ≡ true
  pub started_time : time_fits r.started_at ≡ true
  pub finished_time : time_fits r.finished_at ≡ true
  pub pid_range : (int_min 32 ≤ℤ r.pid) × (r.pid ≤ℤ int_max 32)
  pub exit_range : (int_min 32 ≤ℤ exit_of r.program_exit) × (exit_of r.program_exit ≤ℤ int_max 32)

-- A state of a run that can be printed.
abbrev pub Shown : State → State → Type 0
Shown s t = Reached s t × Printable t

Shown-Kept : (r : Run) (s : State) → Fits r → Kept r (Shown s)
unfolding set_created set_running set_stopped
Shown-Kept r s f = record {
  created = λ t h p. (
    (Reached-Kept r s).created t h p.0,
    record {
      known = λ e. cc;
      id = p.1.id;
      bundle = p.1.bundle;
      created_time = f.created_time;
      started_time = p.1.started_time;
      finished_time = p.1.finished_time;
      pid_range = f.pid_range;
      exit_range = p.1.exit_range;
    },
  );
  running = λ t h p. (
    (Reached-Kept r s).running t h p.0,
    record {
      known = λ e. cc;
      id = p.1.id;
      bundle = p.1.bundle;
      created_time = p.1.created_time;
      started_time = f.started_time;
      finished_time = p.1.finished_time;
      pid_range = p.1.pid_range;
      exit_range = p.1.exit_range;
    },
  );
  stopped = λ t h p. (
    (Reached-Kept r s).stopped t h p.0,
    record {
      known = λ e. cc;
      id = p.1.id;
      bundle = p.1.bundle;
      created_time = p.1.created_time;
      started_time = p.1.started_time;
      finished_time = f.finished_time;
      pid_range = p.1.pid_range;
      exit_range = f.exit_range;
    },
  );
}

module _ (S : Simdjson) (lawful : IsLawful S) (json : ReadsJson S) (os : Os)
    (whole : (d : Disk) (p text : Text) → os.stored d p text ≡ text) (r : Run) (fits : Fits r)
    (pid_six : All (λ x. length x ≡ 6) r.pid_suffixes)
    (created_six : All (λ x. length x ≡ 6) r.created_suffixes)
    (running_six : All (λ x. length x ≡ 6) r.running_suffixes)
    (stopped_six : All (λ x. length x ≡ 6) r.stopped_suffixes) (has_fifo : Bool)
    (pid_file root id : Text) (s : State) (d d' : Disk) (code : ℤ)
    (apart : Apart pid_file r.pid_suffixes (state_file root id))
    (other : text_eq pid_file (state_file root id) ≡ false)
    (creating : s.status ≡ StatusCode.creating) (printable : Printable s)
    (there : d.node (state_file root id) ≡ some (file (print s)))
    (ends : run_container os r has_fifo pid_file (state_file root id) s d ≡ some (code, d')) where
  left : Left (Shown s) (state_file root id) (some (code, d'))
  left = subst (Left (Shown s) (state_file root id)) ends (
      run_container-Left (Shown s) os whole r (Shown-Kept r s fits) pid_six created_six running_six
        stopped_six has_fifo pid_file (state_file root id) s d apart other creating there
        (here, printable))

  -- Wherever `doRunInternal` returns in the container's process, the state file that it leaves can be
  -- loaded: the load succeeds as far as the bundle's configuration loads. It gives the caller's state,
  -- with the id, the bundle, the cgroup flag, the status and each further member that goes with the
  -- status taken from a state that the container has reached. The status is stopped unless the value
  -- returned is 1.
  pub run_container_loads :
      (config_name : Text) (u : State)
      → os.reads d' (state_file root id) ≡ true
      → (t : State) × Reached s t
        × (StateLoad.load S (readable os d') (state_file root id) config_name u
            ≡ StateLoad.with_config
                (merged t u)
                (Load.load S (readable os d' (join t.bundle_path config_name)) u.config))
        × ((t.status ≡ StatusCode.stopped) ⊎ (code ≡ exit_failure))
  run_container_loads config_name u reads =
      let (t, node, (reached, shown), out) = left in
      (
        t,
        reached,
        load-print S lawful json (readable os d') (state_file root id) config_name t u shown
            (rw (reads, node)),
        out,
      )

  -- Once `doRunInternal` has returned a value other than 1 in the container's process, no kill
  -- with an accepted signal sends one, or changes anything: it fails.
  pub kill_after_exit :
      (config_name name : Text) (n : ℕ) (w : World)
      → code ≢ exit_failure
      → os.reads d' (state_file root id) ≡ true
      → parse_signal name ≡ some (pos n)
      → let w' = record w { disk = d' } in
        do_kill S os root config_name id name w' ≡ some (failure, w')
  kill_after_exit config_name name n w differs reads sig =
      let (t, node, (reached, shown), out) = left in
      let w' : World = record w { disk = d' } in
      elim out [
        | inr same ↦ absurd (differs same)
        | inl stopped ↦
            do_kill_shown S lawful json os root config_name id name n t w' shown node reads sig
            ∙ ground arith
      ]
