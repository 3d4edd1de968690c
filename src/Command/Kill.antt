-- ===== src/Command/Kill.antt =====
-- `doKill` of src/runw.cpp.
use runw.Common.{
  ◌∙◌, ◌≡◌, refl, true, false, ℕ, ℤ, pos, Option, none, some, Bool, [], ◌&&◌, not, Text,
  if◌then◌else◌, ltb_ℤ, arith,
}
use runw.FilePath.{join}
use runw.Json.{Simdjson, IsLawful}
use runw.Bundle.{Bundle, empty_bundle}
use runw.Bundle.Load
use runw.Disk.{file, Os, is_file}
use runw.State.{State, fresh, get_pid}
use runw.State.Load as StateLoad
use runw.State.Print.{print, has_pid}
use runw.State.Denotes.{ReadsJson}
use runw.State.RoundTrip.{Printable, merged, load-print}
use runw.Signal.{parse_signal}
use runw.Command.{Exit, success, failure, signalled, World, emit_event, state_file, readable}

unfoldable pub send : Os → ℤ → ℤ → World → Exit × World
send os pid signal w =
    if ltb_ℤ pid (pos 0)
    then (failure, w)
    else if os.delivers pid signal
    then (success, emit_event (signalled pid signal) w)
    else (failure, w)

unfoldable pub kill_loaded : Os → ℤ → World → State × Bool → Exit × World
unfolding send
kill_loaded os signal w (s, true) = send os (get_pid s) signal w
kill_loaded os signal w (s, false) = (failure, w)

unfoldable pub kill_with : Simdjson → Os → Text → Text → Text → ℤ → World → Exit × World
unfolding kill_loaded
kill_with S os root config_name id signal w =
    if ltb_ℤ signal (pos 0)
    then (failure, w)
    else if is_file (w.disk.node (state_file root id))
    then kill_loaded os signal w
        (StateLoad.load S (readable os w.disk) (state_file root id) config_name (fresh [] []))
    else (failure, w)

-- `none`: the signal's number overflowed.
unfoldable pub do_kill : Simdjson → Os → Text → Text → Text → Text → World → Option (Exit × World)
unfolding kill_with
do_kill S os root config_name id signal_name w = elim (parse_signal signal_name) [
  | none ↦ none
  | some signal ↦ some (kill_with S os root config_name id signal w)
]

kill_loaded-with_config :
    (os : Os) (signal : ℤ) (w : World) (s : State) (r : Bundle × Bool)
    → kill_loaded os signal w (StateLoad.with_config s r)
      ≡ (if r.1 then send os s.pid signal w else (failure, w))
unfolding kill_loaded get_pid
kill_loaded-with_config os signal w s (b, true) = refl
kill_loaded-with_config os signal w s (b, false) = refl

-- As `do_kill-print`, whether or not the bundle still loads: where it does not, the kill fails.
pub do_kill_shown :
    (S : Simdjson)
    → IsLawful S
    → ReadsJson S
    → (os : Os) (root config_name id name : Text) (n : ℕ) (s : State) (w : World) → Printable s
    → w.disk.node (state_file root id) ≡ some (file (print s))
    → os.reads w.disk (state_file root id) ≡ true
    → parse_signal name ≡ some (pos n)
    → do_kill S os root config_name id name w
      ≡ some (
          if (Load.load S (readable os w.disk (join s.bundle_path config_name)) empty_bundle).1
            && (has_pid s.status && (not (ltb_ℤ s.pid (pos 0)) && os.delivers s.pid (pos n)))
          then (success, emit_event (signalled s.pid (pos n)) w)
          else (failure, w))
unfolding do_kill
do_kill_shown S lawful json os root config_name id name n s w p there reads sig =
    let loaded =
      load-print S lawful json (readable os w.disk) (state_file root id) config_name s (fresh [] [])
        p (rw (reads, there)) in
    rw (sig, do_kill)
      (rw (there, kill_with)
        (rw loaded (
          rw
            (kill_loaded-with_config os (pos n) w (merged s (fresh [] []))
              (Load.load S (readable os w.disk (join s.bundle_path config_name)) empty_bundle))
            (ground arith))))

-- On a container whose state file `print` wrote and can be read, and whose bundle still loads, a kill
-- with an accepted signal sends that signal to the process of the state and succeeds, if the status is
-- created or running, the process id is not negative and the system delivers. In every other case it
-- fails, sends nothing and changes nothing.
pub do_kill-print :
    (S : Simdjson)
    → IsLawful S
    → ReadsJson S
    → (os : Os) (root config_name id name : Text) (n : ℕ) (s : State) (w : World) → Printable s
    → w.disk.node (state_file root id) ≡ some (file (print s))
    → os.reads w.disk (state_file root id) ≡ true
    → (Load.load S (readable os w.disk (join s.bundle_path config_name)) empty_bundle).1 ≡ true
    → parse_signal name ≡ some (pos n)
    → do_kill S os root config_name id name w
      ≡ some (
          if has_pid s.status && (not (ltb_ℤ s.pid (pos 0)) && os.delivers s.pid (pos n))
          then (success, emit_event (signalled s.pid (pos n)) w)
          else (failure, w))
do_kill-print S lawful json os root config_name id name n s w p there reads config sig =
    do_kill_shown S lawful json os root config_name id name n s w p there reads sig ∙ ground arith
