-- ===== src/Command.antt =====
-- The commands of src/runw.cpp that act on a container by its files: delete, kill, start and state.
pub mod Delete
pub mod Kill
pub mod Start
pub mod Query
pub mod Create
pub mod Engine
pub mod Created
pub mod Ready
pub mod Started
pub mod Main
pub mod Program
use runw.Common.{ℤ, List, ◌∷◌, [], ◌++◌, Text, codes, Option, none, if◌then◌else◌}
use runw.FilePath.{join}
use runw.Disk.{Disk, Os, content}

-- EXIT_SUCCESS and EXIT_FAILURE.
pub data Exit : Type 0 where
  success failure : Exit

-- What a command does that is seen outside the file system.
pub data Event : Type 0 where
  signalled : ℤ → ℤ → Event
  cache_cleared : Text → Event
  released : Text → Event
  printed : Text → Event

pub record World : Type 0 where
  pub disk : Disk
  pub events : List Event

abbrev pub emit_event : Event → World → World
emit_event e w = record w { events = w.events ++ e ∷ [] }

abbrev pub container_root : Text → Text → Text
container_root root id = join root id

abbrev pub state_file : Text → Text → Text
state_file root id = join (container_root root id) (codes "state.json")

abbrev pub exec_fifo : Text → Text → Text
exec_fifo root id = join (container_root root id) (codes "exec.fifo")

-- The files that a load reads.
abbrev pub readable : Os → Disk → Text → Option Text
readable os d p = if os.reads d p then content (d.node p) else none
