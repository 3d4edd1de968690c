-- ===== src/Command/Query.antt =====
-- `doState` of src/runw.cpp.
use runw.Common.{ℕ, ◌≡◌, refl, true, Option, none, some, [], ◌∷◌, ◌++◌, Text, if◌then◌else◌, arith}
use runw.Disk.{Node, file, dir, fifo, is_dir, content, Os}
use runw.Disk.AtomicFile.{read_all, or_empty}
use runw.Command.{Exit, success, failure, printed, World, emit_event, container_root, state_file}

unfoldable pub show_text : Text → World → Exit × World
show_text [] w = (failure, w)
show_text (c ∷ s) w = (success, emit_event (printed ((c ∷ s) ++ 10 ∷ [])) w)

unfoldable pub do_state : Os → Text → Text → World → Exit × World
unfolding show_text
do_state os root id w =
    if is_dir (w.disk.node (container_root root id))
    then show_text (read_all os w.disk (state_file root id)) w
    else (failure, w)

show_text-success :
    (n : Option Node) (w : World)
    → (show_text (or_empty (content n)) w).0 ≡ success
    → (c : ℕ) × (s : Text) × (n ≡ some (file (c ∷ s)))
unfolding show_text
show_text-success none w h = cc
show_text-success (some dir) w h = cc
show_text-success (some fifo) w h = cc
show_text-success (some (file [])) w h = cc
show_text-success (some (file (c ∷ s))) w h = (c, s, refl)

-- The state command succeeds only if the container's directory is there and its state file can be
-- read and is not empty.
pub do_state_needs :
    (os : Os) (root id : Text) (w : World)
    → (do_state os root id w).0 ≡ success
    → (is_dir (w.disk.node (container_root root id)) ≡ true)
      × (os.reads w.disk (state_file root id) ≡ true)
      × ((c : ℕ) × (s : Text) × (w.disk.node (state_file root id) ≡ some (file (c ∷ s))))
unfolding do_state read_all
do_state_needs os root id w h = (
  ground arith,
  ground arith,
  show_text-success (w.disk.node (state_file root id)) w (ground arith),
)
