-- ===== src/CGroup/Enter.antt =====
-- `CGroup::enter` of src/cgroup.cpp: the request to systemd for the scope of a container.
use runw.Common.{ℤ, pos, List, [], ◌∷◌, Text, codes, Option, some}
use runw.SdBus.Dialogue.{Expected, value, unexpected, Talk, ◌>>◌}
use runw.SdBus.{
  Library, Session, text, num, match_signal, new_session, append, open_container, close_container,
  checked, method_call, call, read_object, default_user, default_system, drop_message, drop_bus,
}
use runw.CGroup.UnitName.{UnitNames, unit_names}
use runw.CGroup.JobStatus.{Round, Checked, fails, check, deliver, new_checker}

abbrev pub systemd : Text
systemd = codes "org.freedesktop.systemd1"

abbrev pub systemd_path : Text
systemd_path = codes "/org/freedesktop/systemd1"

abbrev pub systemd_manager : Text
systemd_manager = codes "org.freedesktop.systemd1.Manager"

-- The user's bus or else the system's.
abbrev pub or_else : Library → Expected (Unit {0}) × Session → Expected (Unit {0}) × Session
or_else lib (value u, s) = (value tt, s)
or_else lib (unexpected e, s) = default_system lib s

unfoldable pub open_bus : Library → Talk Session (Unit {0})
unfolding default_user default_system
open_bus lib s = or_else lib (default_user lib s)

-- `JobStatusChecker::setup`.
abbrev pub setup : Library → Talk Session (Unit {0})
setup lib = checked lib (match_signal systemd systemd_path systemd_manager (codes "JobRemoved"))

abbrev pub append_slice : Library → Text → Talk Session (Unit {0})
append_slice lib [] s = (value tt, s)
append_slice lib (c ∷ slice) s =
    checked lib
      (append (codes "(sv)") (text (codes "Slice") ∷ text (codes "s") ∷ text (c ∷ slice) ∷ [])) s

-- From the subscription on: the path of the job that systemd has queued.
unfoldable pub request : Library → UnitNames → ℤ → Talk Session Text
request lib names pid = do
  setup lib
  method_call lib systemd systemd_path systemd_manager (codes "StartTransientUnit")
  checked lib (append (codes "ss") (text names.scope ∷ text (codes "fail") ∷ []))
  checked lib (open_container b'a' (codes "(sv)"))
  append_slice lib names.slice
  checked lib (
      append (codes "(sv)")
        (text (codes "Description") ∷ text (codes "s") ∷ text (codes "runw container") ∷ []))
  checked lib
      (append (codes "(sv)") (text (codes "PIDs") ∷ text (codes "au") ∷ num (pos 1) ∷ num pid ∷ []))
  checked lib
      (append (codes "(sv)") (text (codes "Delegate") ∷ text (codes "b") ∷ num (pos 1) ∷ []))
  checked lib close_container
  checked lib (append (codes "a(sa(sv))") (num (pos 0) ∷ []))
  call lib 0
  read_object lib (codes "o")

unfoldable pub dialogue : Library → UnitNames → ℤ → Talk Session Text
dialogue lib names pid = do open_bus lib; request lib names pid

-- `Checker.check`, on the rounds that the bus then goes through.
abbrev pub wait_for : List Round → Expected Text × Session → Option Checked × Session
wait_for rounds (value job, s) = (check job rounds new_checker, deliver job rounds new_checker s)
wait_for rounds (unexpected e, s) = (some (fails e), s)

-- The whole, with the destructors at its end.
unfoldable pub enter : Library → List Round → Text → Text → ℤ → Option Checked × Session
unfolding dialogue unit_names check deliver
enter lib rounds container_id cgroups_path pid =
    let (r, s) =
      wait_for rounds (dialogue lib (unit_names container_id cgroups_path) pid new_session) in
    (r, drop_bus (drop_message s))
