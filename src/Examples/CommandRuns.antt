-- ===== src/Examples/CommandRuns.antt =====
-- A host with one running container, and the theorems on its files and on the commands.
use mathlib.Core.List.{Memᴰ}
use runw.Common.{
  ℕ, ◌≡◌, refl, pos, true, false, some, none, Option, [], ◌∷◌, Text, codes, text_eq, if◌then◌else◌,
}
use runw.FilePath.{join}
use runw.Loader.{each}
use runw.Bundle.{empty_bundle}
use runw.Bundle.Load
use runw.State.Load as StateLoad
use runw.State.Status.{status_string, parse_status}
use runw.State.Document.{read_document}
use runw.State.Escape.{read_string, json_escape, escape_byte}
use runw.State.Decimal.{read_int, print_int}
use runw.Signal.{parse_signal, to_upper, find_signal}
use runw.Disk.Siblings.{is_name}
use runw.Disk.{
  is_below, is_through, trimmed, remove_all, is_dir, put, Node, file, dir, fifo, Disk, Os,
}
use runw.Disk.TempFile.{get_temp_filename}
use runw.Disk.AtomicFile.{atomic_create, atomic_update, read_all}
use runw.Disk.Atomicity.{
  AllOrNothing, atomic_writes, get_temp_filename_stuck, get_temp_filename_ends,
}
use runw.State.Print.{print}
use runw.State.Reference.{reference, reference-IsLawful, reference-ReadsJson}
use runw.Command.{
  success, failure, World, signalled, emit_event, container_root, state_file, readable,
}
use runw.Command.Delete.{do_delete, cleared, do_delete_inside, do_delete_others, do_delete_events}
use runw.Command.Kill.{do_kill, do_kill-print}
use runw.Command.Start.{do_start, do_start_twice}
use runw.Command.Query.{do_state, do_state_needs}
use runw.Examples.StateRuns.{container, container-Printable}

-- A system that refuses nothing, and one that opens no file for writing.
abbrev willing : Os
willing = record {
  opens = λ d p. true;
  reads = λ d p. true;
  stored = λ d p t. t;
  renames = λ d p q. true;
  removes = λ d p. true;
  clears = λ d id q. is_below (join (codes "/cache") id) q;
  leaves = λ d p q. false;
  unlinks = λ d p. true;
  has_reader = λ d p. true;
  writes_fifo = λ d p. true;
  delivers = λ pid signal. true;
}

abbrev read_only : Os
read_only = record willing { opens = λ d p. false }

abbrev nodes : Text → Option Node
nodes p =
    if text_eq p (codes "/run/c1")
    then some dir
    else if text_eq p (codes "/run/c1/state.json")
    then some (file (print container))
    else if text_eq p (codes "/run/c1/exec.fifo")
    then some fifo
    else if text_eq p (codes "/bundle/config.json")
    then some (file (codes "{\"ociVersion\":\"1.0.2\"}\n"))
    else none

abbrev host : World
host = record { disk = record { node = nodes }; events = [] }

abbrev root : Text
root = codes "/run"

abbrev id : Text
id = codes "c1"

abbrev config_name : Text
config_name = codes "config.json"

state_there : host.disk.node (state_file root id) ≡ some (file (print container))
unfolding join text_eq
state_there = refl

config_loads :
    (Load.load reference
      (readable willing host.disk (join container.bundle_path config_name))
      empty_bundle).1
    ≡ true
unfolding join text_eq Load.load Load.load_config Load.load_field each read_document read_string
    read_int
config_loads = refl

term_accepted : parse_signal (codes "TERM") ≡ some (pos 15)
unfolding parse_signal text_eq to_upper find_signal
term_accepted = refl

start_succeeds : (do_start reference willing root config_name id host).0 ≡ success
unfolding do_start put join text_eq StateLoad.load Load.load Load.load_config Load.load_field each
    read_document read_string read_int print json_escape escape_byte status_string print_int
    parse_status
start_succeeds = refl

atomic_writes_example :
    AllOrNothing willing
      (codes "/x")
      (codes "new")
      host.disk
      (codes "/y")
      (atomic_create willing (codes "abcdef" ∷ []) (codes "/x") (codes "new") host.disk)
    × AllOrNothing willing
        (codes "/x")
        (codes "new")
        host.disk
        (codes "/y")
        (atomic_update willing (codes "abcdef" ∷ []) (codes "/x") (codes "new") host.disk)
unfolding text_eq
atomic_writes_example =
    atomic_writes willing (codes "abcdef" ∷ []) (codes "/x") (codes "new") (codes "/y") host.disk
      (refl, tt) (refl, tt) refl

get_temp_filename_stuck_example :
    get_temp_filename read_only (codes "abcdef" ∷ codes "bcdefg" ∷ []) host.disk (codes "/x") ≡ none
get_temp_filename_stuck_example =
    get_temp_filename_stuck read_only (codes "abcdef" ∷ codes "bcdefg" ∷ []) host.disk (codes "/x")
      (λ b s. refl)

get_temp_filename_ends_example :
    (temp : Text) × (d : Disk) × (get_temp_filename willing
        (codes "abcdef" ∷ [])
        host.disk
        (codes "/x")
      ≡ some (temp, d))
unfolding text_eq
get_temp_filename_ends_example =
    get_temp_filename_ends willing (codes "abcdef" ∷ []) host.disk (codes "/x") (codes "abcdef")
      (λ b p. refl) (Memᴰ.head refl) refl

do_kill-print_example :
    do_kill reference willing root config_name id (codes "TERM") host
    ≡ some (success, emit_event (signalled (pos 42) (pos 15)) host)
unfolding text_eq
do_kill-print_example =
    do_kill-print reference reference-IsLawful reference-ReadsJson willing root config_name id
      (codes "TERM") 15 container host container-Printable state_there refl config_loads
      term_accepted

do_start_twice_example :
    let w' = (do_start reference willing root config_name id host).1 in
    do_start reference willing root config_name id w' ≡ (failure, w')
do_start_twice_example = do_start_twice reference willing root config_name id host start_succeeds

state_shown : (do_state willing root id host).0 ≡ success
unfolding do_state read_all print text_eq put join
state_shown = refl

do_state_needs_example :
    (is_dir (host.disk.node (container_root root id)) ≡ true)
    × (willing.reads host.disk (state_file root id) ≡ true)
    × ((c : ℕ) × (s : Text) × (host.disk.node (state_file root id) ≡ some (file (c ∷ s))))
do_state_needs_example = do_state_needs willing root id host state_shown

deletes : (do_delete willing root id false host).0 ≡ success
unfolding do_delete remove_all text_eq put join
deletes = refl

do_delete_inside_example :
    (do_delete willing root id false host).1.disk.node (state_file root id) ≡ none
unfolding is_below join text_eq
do_delete_inside_example = do_delete_inside willing root id host (state_file root id) deletes refl

do_delete_others_example :
    (do_delete willing root id true host).1.disk.node (codes "/run/c2/state.json")
    ≡ host.disk.node (codes "/run/c2/state.json")
unfolding is_below is_through trimmed join text_eq is_name
do_delete_others_example =
    do_delete_others willing root id (codes "c2") true host (codes "/run/c2/state.json") refl refl
      refl refl (λ d. refl)

-- A separator at the end of the id changes nothing.
trailing_separator : is_below (join root (codes "c1/")) (codes "/run/c1/state.json") ≡ true
unfolding is_below is_through trimmed join
trailing_separator = refl

do_delete_events_example :
    ((do_delete willing root id true host).0 ≡ success)
    × ((do_delete willing root id true host).1.events
        ≡ cleared id [] (do_delete willing root id true host).0)
do_delete_events_example = do_delete_events willing root id true host
