-- ===== src/Command/Started.antt =====
-- A `create` and then a `start`, both of src/runw.cpp.
use runw.State.Document.{all_ascii}
use runw.State.Escape.{all_plain}
use runw.Common.{[], ◌≡◌, refl, ◌∙◌, Bool, true, false, none, some, List, Text, length, All, arith}
use runw.FilePath.{join}
use runw.Json.{Simdjson, IsLawful}
use runw.Bundle.{Bundle, empty_bundle}
use runw.Bundle.Load
use runw.Disk.{Disk, Os, put}
use runw.State.{State, fresh, set_creating, set_systemd_cgroup}
use runw.State.Load as StateLoad
use runw.State.Denotes.{ReadsJson}
use runw.State.RoundTrip.{Printable, text_fits, merged, load-print}
use runw.Command.{
  success, World, released, emit_event, container_root, state_file, exec_fifo, readable,
}
use runw.Command.Create.{Launch, Created, first_state, do_create}
use runw.Command.Ready.{first_of, do_create-Holds}
use runw.Command.Start.{do_start, start_loaded, release}

first_of-Printable :
    (systemd : Bool) (id path : Text) (b : Bundle)
    → text_fits id ≡ true
    → text_fits path ≡ true
    → Printable (first_of systemd id path b)
unfolding first_state set_creating set_systemd_cgroup all_plain all_ascii
first_of-Printable systemd id path b i p = record {
  known = λ e. cc;
  id = i;
  bundle = p;
  created_time = refl;
  started_time = refl;
  finished_time = refl;
  pid_range = omega arith;
  exit_range = omega arith;
}

start_loaded-with_config :
    (os : Os) (p : Text) (w : World) (s : State) (r : Bundle × Bool)
    → r.1 ≡ true
    → start_loaded os p w (StateLoad.with_config s r) ≡ release os p w
unfolding start_loaded
start_loaded-with_config os p w s (b, true) h = refl
start_loaded-with_config os p w s (b, false) h = cc

-- After a `create` that succeeded and started the container's process, a `start` succeeds, if the files
-- can be read, the bundle still loads, the process has the fifo open, and the fifo can be removed and
-- written to: it removes the fifo, sends the byte, and does nothing else. The id and the path of the
-- bundle are texts that JSON holds without other escapes; texts reach files whole.
pub create-start :
    (S : Simdjson)
    → IsLawful S
    → ReadsJson S
    → (os : Os) → ((d : Disk) (p text : Text) → os.stored d p text ≡ text)
    → (l : Launch) (suffixes : List Text) → All (λ s. length s ≡ 6) suffixes
    → (root : Text) (systemd : Bool) (config_name id path console : Text) (d d' : Disk)
      (c : Created) (w : World)
    → text_fits id ≡ true
    → text_fits path ≡ true
    → l.makes_directories d (container_root root id) ≡ some d'
    → do_create S os l suffixes root systemd config_name id path console d ≡ some c
    → c.exit ≡ success
    → c.container ≡ true
    → os.reads c.disk (state_file root id) ≡ true
    → (Load.load S (readable os c.disk (join path config_name)) empty_bundle).1 ≡ true
    → os.has_reader c.disk (exec_fifo root id) ≡ true
    → os.unlinks c.disk (exec_fifo root id) ≡ true
    → os.writes_fifo c.disk (exec_fifo root id) ≡ true
    → do_start S os root config_name id (record w { disk = c.disk }) ≡ (
      success,
      emit_event
          (released (exec_fifo root id))
          (record w { disk = put c.disk (exec_fifo root id) none }),
    )
unfolding do_start release first_state set_creating set_systemd_cgroup
create-start S lawful json os whole l suffixes six root systemd config_name id path console d d' c w
      i p made e x there reads config reader unlinked wrote =
    let (b, (node, fifo_there)) =
      do_create-Holds S os whole l suffixes six root systemd config_name id path console d d' c made
        e x there in
    let w' : World = record w { disk = c.disk } in
    let loaded =
      load-print S lawful json (readable os c.disk) (state_file root id) config_name
        (first_of systemd id path b) (fresh [] []) (first_of-Printable systemd id path b i p)
        (rw (reads, node)) in
    rw (node, do_start)
      (rw loaded (
        start_loaded-with_config os (exec_fifo root id) w'
          (merged (first_of systemd id path b) (fresh [] []))
          (Load.load S (readable os c.disk (join path config_name)) empty_bundle) config
        ∙ rw (fifo_there, release) (rw (reader, unlinked, wrote) refl)))
