-- ===== src/Examples/StateRuns.antt =====
-- The state of a running container, and the theorems on states, signals and unit names.
use mathlib.Core.List.{Memᴰ}
use runw.Common.{
  negsuc, inr, List, ◌≡◌, ◌↔◌, refl, pos, some, none, [], ◌∷◌, ◌++◌, codes, arith, text_eq,
  if◌then◌else◌,
}
use runw.FilePath.{join}
use runw.Bundle.Load as BundleLoad
use runw.Bundle.{empty_bundle}
use runw.State.{State, fresh}
use runw.State.Status.{running, status_string, parse_status, parse_status_iff}
use runw.State.Escape.{
  quote, json_escape, escape_byte, read_string, read_string-json_escape, all_escapable, all_plain,
}
use runw.State.Document.{all_ascii}
use runw.State.Decimal.{print_int}
use runw.State.Print.{print}
use runw.State.Load.{Files, load, with_config}
use runw.State.RoundTrip.{Printable, merged, load-print}
use runw.State.Reference.{reference, reference-IsLawful, reference-ReadsJson}
use runw.Signal.{parse_signal}
use runw.Signal.Names.{end, same, raised, parse_signal-names, parse_signal-print_int}
use runw.CGroup.JobStatus.{
  Round, job_removed, handled, waited, new_checker, efault, fails, check, expected, check_lem,
}
use runw.CGroup.UnitName.{unit_names, unit_names_of_parts}

abbrev pub container : State
container = record (fresh (codes "c1") (codes "/bundle")) {
  status = running;
  pid = pos 42;
  created_timestamp = codes "2026-01-02T03:04:05Z";
  started_timestamp = codes "2026-01-02T03:04:06Z";
}

pub container-Printable : Printable container
unfolding all_escapable all_ascii all_plain
container-Printable = record {
  known = λ e. cc;
  id = refl;
  bundle = refl;
  created_time = refl;
  started_time = refl;
  finished_time = refl;
  pid_range = omega arith;
  exit_range = omega arith;
}

-- The state file, and a small configuration of the bundle.
abbrev pub files : Files
files p =
    if text_eq p (codes "/run/c1/state.json")
    then some (print container)
    else if text_eq p (codes "/bundle/config.json")
    then some (codes "{\"ociVersion\":\"1.0.2\"}\n")
    else none

load-print_example :
    load reference files (codes "/run/c1/state.json") (codes "config.json") (fresh [] [])
    ≡ with_config (merged container (fresh [] [])) (
        BundleLoad.load reference
          (files (join container.bundle_path (codes "config.json")))
          empty_bundle)
unfolding text_eq
load-print_example =
    load-print reference reference-IsLawful reference-ReadsJson files (codes "/run/c1/state.json")
      (codes "config.json") container (fresh [] []) container-Printable refl

read_string-json_escape_example :
    read_string (json_escape (codes "a\"b\n") ++ quote ∷ codes ",")
    ≡ (if all_escapable (codes "a\"b\n") then some (codes "a\"b\n", codes ",") else none)
read_string-json_escape_example = read_string-json_escape (codes "a\"b\n") (codes ",")

-- A byte such as 1 is copied, and the text is then no JSON string.
control_character_kept : read_string (json_escape (1 ∷ []) ++ quote ∷ []) ≡ none
unfolding read_string json_escape escape_byte
control_character_kept = refl

parse_status_iff_example :
    (parse_status (codes "running") ≡ running) ↔ (codes "running" ≡ status_string running)
parse_status_iff_example = parse_status_iff (codes "running") running (λ e. cc)

parse_signal-names_example : parse_signal (codes "Alrm") ≡ some (pos 14)
parse_signal-names_example =
    parse_signal-names (codes "ALRM") 14 (codes "Alrm") (Memᴰ.tail (Memᴰ.head refl)) (
      inr (
        same b'A' _ _ (
          raised 11 _ _ (omega arith)
            (raised 17 _ _ (omega arith) (raised 12 _ _ (omega arith) end)))))

parse_signal-print_int_example : parse_signal (print_int (negsuc 4) []) ≡ some (negsuc 0)
parse_signal-print_int_example = parse_signal-print_int (negsuc 4) (omega arith)

fifteen_accepted : parse_signal (print_int (pos 15) []) ≡ some (pos 15)
fifteen_accepted = parse_signal-print_int (pos 15) (omega arith)

-- The path that the help text of the program gives.
unit_names_of_parts_example :
    unit_names (codes "c1") (codes "system.slice" ++ b':' ∷ (codes "runc" ++ b':' ∷ codes "434234"))
    ≡ record { scope = codes "runc:434234.scope"; slice = codes "system.slice" }
unit_names_of_parts_example =
    unit_names_of_parts (codes "c1") (codes "system.slice") (codes "runc") (codes "434234") refl
      refl refl

abbrev rounds : List Round
rounds =
    handled
    ∷ job_removed (codes "/j/2") (codes "done")
    ∷ waited
    ∷ job_removed (codes "/j/1") (codes "failed")
    ∷ []

job_failed : check (codes "/j/1") rounds new_checker ≡ some (fails efault)
unfolding check text_eq
job_failed = refl

check_lem_example : check (codes "/j/1") rounds new_checker ≡ expected (codes "/j/1") rounds
check_lem_example = check_lem (codes "/j/1") rounds
