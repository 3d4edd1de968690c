-- ===== src/Examples/CGroupRuns.antt =====
-- Requests to systemd on concrete buses, and the theorems on them.
use runw.Common.{
  ◌↔◌, ◌≢◌, ℕ, pos, List, [], ◌∷◌, ◌≡◌, ◌<◌, refl, none, some, false, Text, codes, text_eq,
  if◌then◌else◌,
}
use runw.SdBus.Dialogue.{◌>>=◌, Expected, value, unexpected}
use runw.SdBus.{Library, new_session, method_call, call, read_object}
use runw.CGroup.UnitName.{UnitNames, unit_names}
use runw.CGroup.JobStatus.{Round, job_removed, handled, waited, finished, check}
use runw.State.{State, fresh}
use runw.State.Decimal.{print_int}
use runw.CGroup.Finalize.{unknown, unified, cgroup_path, finalize, check_mode}
use runw.CGroup.Entry.{HasEntry, finalize_lem}
use runw.CGroup.Enter.{enter, request, dialogue, open_bus}
use runw.CGroup.References.{any_send, enter_leaks, enter_over_drops}
use runw.CGroup.Script.{seen, script, run_script, request_lem}
use runw.CGroup.Typed.{sent_body, request_type, enter_typed}

abbrev accepting : Library
accepting log = record { code = pos 0; errno = pos 0; object = codes "/j/1" }

abbrev rounds : List Round
rounds = handled ∷ waited ∷ job_removed (codes "/j/1") (codes "done") ∷ []

job_done : (enter accepting rounds (codes "c1") (codes "a:b:c") (pos 7)).0 ≡ some finished
unfolding enter dialogue ◌>>=◌ open_bus request method_call call read_object check text_eq
    unit_names
job_done = refl

enter_leaks_example : (enter accepting rounds (codes "c1") (codes "a:b:c") (pos 7)).1.references ≡ (
    if any_send (enter accepting rounds (codes "c1") (codes "a:b:c") (pos 7)).1.calls then 1 else 0)
enter_leaks_example = enter_leaks accepting rounds (codes "c1") (codes "a:b:c") (pos 7)

one_reference_left : (enter accepting rounds (codes "c1") [] (pos 7)).1.references ≡ 1
unfolding enter dialogue ◌>>=◌ open_bus request method_call call read_object check text_eq
    unit_names
one_reference_left = refl

enter_over_drops_example :
    0 < (enter accepting rounds (codes "c1") (codes "a:b:c") (pos 7)).1.over_dropped
enter_over_drops_example =
    enter_over_drops accepting rounds (codes "c1") (codes "a:b:c") (pos 7) job_done

enter_typed_example :
    sent_body (enter accepting rounds (codes "c1") (codes "a:b:c") (pos 7)).1.calls ([], none)
    ≡ some (request_type, none)
enter_typed_example = enter_typed accepting rounds (codes "c1") (codes "a:b:c") (pos 7) job_done

abbrev names : UnitNames
names = record { scope = codes "b-c.scope"; slice = codes "a" }

request_lem_example :
    seen (request accepting names (pos 7) new_session)
    ≡ run_script accepting [] (script names (pos 7))
request_lem_example = request_lem accepting names (pos 7) new_session

-- The kernel's file on a system with one hierarchy.
abbrev proc_file : Text → Expected Text
proc_file p =
    if text_eq p (codes "/proc/7/cgroup")
    then value (codes "0::/user.slice/c1.scope\n")
    else unexpected (pos 2)

abbrev c1 : State
c1 = record (fresh (codes "c1") (codes "/b")) { pid = pos 7 }

finalize_lem_example : (finalize proc_file false unified c1 ≡ value tt) ↔ (
    (unified ≢ unknown)
    × ((content : Text) × (proc_file (cgroup_path c1) ≡ value content) × HasEntry unified content))
finalize_lem_example = finalize_lem proc_file false unified c1

group_found : finalize proc_file false unified c1 ≡ value tt
unfolding finalize text_eq print_int
group_found = refl

abbrev one_hierarchy : Text → Expected ℕ
one_hierarchy p =
    if text_eq p (codes "/sys/fs/cgroup") then value 1667723888 else unexpected (pos 2)

unified_here : check_mode one_hierarchy ≡ unified
unfolding check_mode text_eq
unified_here = refl
