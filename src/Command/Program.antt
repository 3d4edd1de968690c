-- ===== src/Command/Program.antt =====
-- The program of src/runw.cpp from its command line on.
use mathlib.Core.Path.{subst}
use runw.Disk.AtomicFile.{read_all}
use runw.Signal.{parse_signal}
use runw.Common.{
  text_eq, ◌∙◌, ap, ℤ, ◌&&◌, not, Option-cases, inl, inr, Bool-cases, ◌∷◌, ◌≡◌, refl, Bool, true,
  false, Option, none, some, [], Text, arith, ◌||◌,
}
use runw.Json.{Simdjson}
use runw.Disk.{Disk, Os}
use runw.State.Load as StateLoad
use runw.State.{fresh, State}
use runw.Command.{Exit, World, state_file, readable}
use runw.Command.Kill.{do_kill, kill_with, kill_loaded, send}
use runw.Command.Query.{do_state, show_text}
use runw.Command.Main.{
  log_path, run_logged, Options, Process, config_name, dispatch, log_path, run_logged, run_main,
}

kill_loaded_disk :
    (os : Os) (signal : ℤ) (w : World) (r : State × Bool)
    → (kill_loaded os signal w r).1.disk ≡ w.disk
unfolding kill_loaded send
kill_loaded_disk os signal w (s, true) = ground arith
kill_loaded_disk os signal w (s, false) = refl

kill_with_disk :
    (S : Simdjson) (os : Os) (root config_name id : Text) (signal : ℤ) (w : World)
    → (kill_with S os root config_name id signal w).1.disk ≡ w.disk
unfolding kill_with
kill_with_disk S os root config_name id signal w = ground (
  arith,
  kill_loaded_disk os signal w
      (StateLoad.load S (readable os w.disk) (state_file root id) config_name (fresh [] [])),
)

show_text_disk : (t : Text) (w : World) → (show_text t w).1.disk ≡ w.disk
unfolding show_text
show_text_disk [] w = refl
show_text_disk (c ∷ t) w = refl

do_state_disk : (os : Os) (root id : Text) (w : World) → (do_state os root id w).1.disk ≡ w.disk
unfolding do_state
do_state_disk os root id w =
    ground (arith, show_text_disk (read_all os w.disk (state_file root id)) w)

-- The disk after a command that ends.
abbrev Keeps : Disk → Option (Exit × World) → Type 0
Keeps d none = Unit
Keeps d (some (e, w)) = w.disk ≡ d

do_kill_disk :
    (S : Simdjson) (os : Os) (root config_name id name : Text) (w : World)
    → Keeps w.disk (do_kill S os root config_name id name w)
unfolding do_kill
do_kill_disk S os root config_name id name w = elim (Option-cases (parse_signal name)) [
  | inl off ↦ rw (off, do_kill) tt
  | inr (signal, e) ↦ rw (e, do_kill) (kill_with_disk S os root config_name id signal w)
]

-- Whether the options choose a command that may write files.
abbrev pub writes : Option Options → Bool
writes none = false
writes (some o) = not o.version && (o.start || (o.create || o.delete))

dispatch_disk :
    (p : Process) (o : Options) (w : World)
    → (o.start || (o.create || o.delete)) ≡ false
    → Keeps w.disk (dispatch p o w)
unfolding dispatch
dispatch_disk p o w h =
    let start : o.start ≡ false = ground arith in
    let create : o.create ≡ false = ground arith in
    let delete : o.delete ≡ false = ground arith in
    rw (start, dispatch)
      (rw (create, delete)
        (elim (Bool-cases o.kill) [
          | inl k ↦ rw k (do_kill_disk p.json p.os o.root _ o.container_id o.signal w)
          | inr k ↦ rw k (elim (Bool-cases o.state) [
            | inl s ↦ rw s (do_state_disk p.os o.root o.container_id w)
            | inr s ↦ rw s refl
          ])
        ]))

run_logged-Keeps :
    (p : Process) (o : Option Options) (w : World)
    → p.options ≡ o
    → writes o ≡ false
    → Keeps w.disk (run_logged p w)
unfolding run_logged
run_logged-Keeps p none w e h = rw (e, run_logged) refl
run_logged-Keeps p (some o) w e h = elim (Bool-cases o.version) [
  | inl v ↦ rw (e, run_logged) (rw v refl)
  | inr v ↦ rw (e, run_logged) (rw v (dispatch_disk p o w (rw v at h)))
]

-- Unless the options ask for a start, a creation or a deletion, the program changes no file but its log,
-- if the logger writes no other: this is so for a kill, a state, a version, no command at all, and
-- options that the parser refuses.
pub run_main_disk :
    (p : Process) (e : Exit) (w w' : World) (q : Text)
    → ((d : Disk) (q : Text) → text_eq log_path q ≡ false → (p.log d).node q ≡ d.node q)
    → writes p.options ≡ false
    → run_main p w ≡ some (e, w')
    → text_eq log_path q ≡ false
    → w'.disk.node q ≡ w.disk.node q
unfolding run_main
run_main_disk p e w w' q logs h r other =
    let logged : World = record w { disk = p.log w.disk } in
    let same : w'.disk ≡ logged.disk =
      subst (Keeps logged.disk) r (run_logged-Keeps p p.options logged refl h) in
    ap (λ d. d.node q) same ∙ logs w.disk q other
