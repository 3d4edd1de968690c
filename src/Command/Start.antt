-- ===== src/Command/Start.antt =====
-- `doStart` of src/runw.cpp.
use runw.Common.{
  ◌≡◌, true, false, Option, none, some, Bool, [], Text, if◌then◌else◌, arith, text_eq_self,
}
use runw.Json.{Simdjson}
use runw.Disk.{Node, file, fifo, Disk, Os, put, is_file}
use runw.State.{State, fresh}
use runw.State.Load
use runw.Command.{
  Exit, success, failure, released, World, emit_event, state_file, exec_fifo, readable,
}

-- `open(path, O_WRONLY | O_NONBLOCK)`: a fifo wants a reader.
abbrev pub opens_for_write : Os → Disk → Text → Option Node → Bool
opens_for_write os d p (some fifo) = os.has_reader d p
opens_for_write os d p (some (file _)) = os.opens d p
opens_for_write os d p _ = false

-- Open, unlink, write: the container's process waits for the byte.
unfoldable pub release : Os → Text → World → Exit × World
release os p w =
    if opens_for_write os w.disk p (w.disk.node p)
    then (if os.unlinks w.disk p
        then (let w' = record w { disk = put w.disk p none } in
            if os.writes_fifo w.disk p
            then (success, emit_event (released p) w')
            else (failure, w'))
        else (failure, w))
    else (failure, w)

unfoldable pub start_loaded : Os → Text → World → State × Bool → Exit × World
unfolding release
start_loaded os p w (s, true) = release os p w
start_loaded os p w (s, false) = (failure, w)

unfoldable pub do_start : Simdjson → Os → Text → Text → Text → World → Exit × World
unfolding start_loaded
do_start S os root config_name id w =
    if is_file (w.disk.node (state_file root id))
    then start_loaded os (exec_fifo root id) w
        (Load.load S (readable os w.disk) (state_file root id) config_name (fresh [] []))
    else (failure, w)

-- A second start of a container that was started fails and changes nothing more, whatever the system
-- allows: the first has removed the fifo.
pub do_start_twice :
    (S : Simdjson) (os : Os) (root config_name id : Text) (w : World)
    → (do_start S os root config_name id w).0 ≡ success
    → let w' = (do_start S os root config_name id w).1 in
      do_start S os root config_name id w' ≡ (failure, w')
unfolding do_start put
do_start_twice S os root config_name id w h = ground (arith, text_eq_self (exec_fifo root id))
