-- ===== src/State.antt =====
-- `State` of include/state.h and src/state.cpp: what runw keeps of a container between commands. The
-- children model its text form.
pub mod Escape
pub mod Status
pub mod Decimal
pub mod Document
pub mod Print
pub mod Load
pub mod Denotes
pub mod RoundTrip
pub mod Reference
use runw.Common.{ℤ, pos, negsuc, Bool, false, [], Text, codes}
use runw.Bundle.{Bundle, empty_bundle}
use runw.State.Status.{StatusCode}

pub record State : Type 0 where
  pub container_id : Text
  pub bundle_path : Text
  pub created_timestamp : Text
  pub started_timestamp : Text
  pub finished_timestamp : Text
  pub config : Bundle
  pub status : StatusCode
  pub exit_code : ℤ
  pub pid : ℤ
  pub systemd_cgroup : Bool

-- `State() = default` and `State(ContainerId, BundlePath)`.
abbrev pub fresh : Text → Text → State
fresh id path = record {
  container_id = id;
  bundle_path = path;
  created_timestamp = [];
  started_timestamp = [];
  finished_timestamp = [];
  config = empty_bundle;
  status = StatusCode.unknown;
  exit_code = pos 0;
  pid = negsuc 0;
  systemd_cgroup = false;
}

-- The setters. The time that `strftime` prints and the process id are arguments.
unfoldable pub set_creating : State → State
set_creating s = record s { status = StatusCode.creating }

unfoldable pub set_created : Text → ℤ → State → State
set_created now pid s = record s { status = StatusCode.created; created_timestamp = now; pid = pid }

unfoldable pub set_running : Text → State → State
set_running now s = record s { status = StatusCode.running; started_timestamp = now }

unfoldable pub set_stopped : ℤ → Text → State → State
set_stopped exit now s = record s {
  status = StatusCode.stopped;
  exit_code = exit;
  finished_timestamp = now;
}

unfoldable pub set_systemd_cgroup : Bool → State → State
set_systemd_cgroup v s = record s { systemd_cgroup = v }

unfoldable pub get_pid : State → ℤ
get_pid s = s.pid
