-- ===== src/CGroup/References.antt =====
-- The references to messages that `CGroup::enter` of src/cgroup.cpp leaves behind.
use runw.Common.{
  ◌≡◌, refl, ◌≤◌, ◌<◌, ◌+◌, ℕ, ℤ, Bool, true, false, List, [], ◌∷◌, ◌++◌, ◌||◌, Text, some, arith,
  if◌then◌else◌,
}
use runw.SdBus.Dialogue.{Expected, value, unexpected}
use runw.SdBus.Leads.{Post, Leads, Leads-bind}
use runw.SdBus.{
  Library, Session, Call, send, read, match_signal_async_callback, open_user, open_system,
  new_method_call, default_user, default_system, new_session, drop_message, drop_bus, checked,
  method_call, call, read_object,
}
use runw.CGroup.UnitName.{UnitNames, unit_names}
use runw.CGroup.JobStatus.{
  Round, job_removed, handled, waited, process_fails, wait_fails, Checker, callback, finished,
  check, deliver, new_checker,
}
use runw.CGroup.Enter.{dialogue, enter, wait_for, request, open_bus, or_else, append_slice}

abbrev pub is_send : Call → Bool
is_send (send usec) = true
is_send _ = false

abbrev pub any_send : List Call → Bool
any_send [] = false
any_send (c ∷ cs) = is_send c || any_send cs

any_send-append : (cs : List Call) (c : Call) → any_send (cs ++ c ∷ []) ≡ (any_send cs || is_send c)
any_send-append [] c = ground arith
any_send-append (d ∷ cs) c = ground (arith, any_send-append cs c)

-- Before the request is made, while it is filled, and wherever it ends.
record Idle (s : Session) : Type 0 where
  none_held : s.held ≡ false
  no_references : s.references ≡ 0
  not_sent : any_send s.calls ≡ false

record Filling (s : Session) : Type 0 where
  holds : s.held ≡ true
  one : s.references ≡ 1
  not_sent : any_send s.calls ≡ false

record Ended (s : Session) : Type 0 where
  counted : s.references ≡ (if s.held then 1 else 0) + (if any_send s.calls then 1 else 0)

module _ (lib : Library) where
  checked-Idle : (c : Call) → is_send c ≡ false → Leads Idle (checked lib c) Idle Ended
  unfolding checked
  checked-Idle c h = record { at = λ s p. ground (arith, any_send-append s.calls c) }

  checked-Filling : (c : Call) → is_send c ≡ false → Leads Filling (checked lib c) Filling Ended
  unfolding checked
  checked-Filling c h = record { at = λ s p. ground (arith, any_send-append s.calls c) }

  method_call-Leads :
      (destination path interface member : Text)
      → Leads Idle (method_call lib destination path interface member) Filling Ended
  unfolding method_call checked
  method_call-Leads destination path interface member = record {
    at = λ s p.
        ground (arith, any_send-append s.calls (new_method_call destination path interface member));
  }

  call-Leads : (usec : ℕ) → Leads Filling (call lib usec) Ended Ended
  unfolding call
  call-Leads usec = record { at = λ s p. ground (arith, any_send-append s.calls (send usec)) }

  read-Leads : (types : Text) → Leads Ended (read_object lib types) Ended Ended
  unfolding read_object
  read-Leads types = record { at = λ s p. ground (arith, any_send-append s.calls (read types)) }

  slice-Leads : (slice : Text) → Leads Filling (append_slice lib slice) Filling Ended
  slice-Leads [] = record { at = λ s p. p }
  slice-Leads (c ∷ slice) = record { at = (checked-Filling _ refl).at }

  default_user-Leads : Leads Idle (default_user lib) Idle Idle
  unfolding default_user checked
  default_user-Leads = record { at = λ s p. ground (arith, any_send-append s.calls open_user) }

  default_system-Leads : Leads Idle (default_system lib) Idle Ended
  unfolding default_system checked
  default_system-Leads = record { at = λ s p. ground (arith, any_send-append s.calls open_system) }

  or_else-Post :
      (r : Expected (Unit {0}) × Session) → Post Idle Idle r → Post Idle Ended (or_else lib r)
  or_else-Post (value u, s) p = p
  or_else-Post (unexpected e, s) p = default_system-Leads.at s p

  open_bus-Leads : Leads Idle (open_bus lib) Idle Ended
  unfolding open_bus
  open_bus-Leads = record { at = λ s p. or_else-Post _ (default_user-Leads.at s p) }

  dialogue-Leads : (names : UnitNames) (pid : ℤ) → Leads Idle (dialogue lib names pid) Ended Ended
  unfolding dialogue request
  dialogue-Leads names pid = Leads-bind _ _ open_bus-Leads λ _.
      Leads-bind _ _ (checked-Idle _ refl) λ _. Leads-bind _ _ (method_call-Leads _ _ _ _) λ _.
        Leads-bind _ _ (checked-Filling _ refl) λ _. Leads-bind _ _ (checked-Filling _ refl) λ _.
          Leads-bind _ _ (slice-Leads names.slice) λ _. Leads-bind _ _ (checked-Filling _ refl) λ _.
            Leads-bind _ _ (checked-Filling _ refl) λ _.
              Leads-bind _ _ (checked-Filling _ refl) λ _.
                Leads-bind _ _ (checked-Filling _ refl) λ _.
                  Leads-bind _ _ (checked-Filling _ refl)
                    λ _. Leads-bind _ _ (call-Leads _) λ _. read-Leads _

-- The rounds change nothing else of the session.
pub deliver_keeps :
    (job : Text) (rounds : List Round) (c : Checker) (s : Session)
    → let s' = deliver job rounds c s in
      (s'.references ≡ s.references)
      × (s'.held ≡ s.held)
      × (s'.calls ≡ s.calls)
      × (s.over_dropped ≤ s'.over_dropped)
unfolding deliver
deliver_keeps job [] c s = ground arith
deliver_keeps job (job_removed j result ∷ more) c s =
    ground (arith, deliver_keeps job more (callback job j result c) (match_signal_async_callback s))
deliver_keeps job (handled ∷ more) c s = ground (arith, deliver_keeps job more c s)
deliver_keeps job (waited ∷ more) c s = ground (arith, deliver_keeps job more c s)
deliver_keeps job (process_fails e ∷ more) c s = ground arith
deliver_keeps job (wait_fails e ∷ more) c s = ground arith

-- A job that is waited for successfully has had a signal.
deliver_ends :
    (job : Text) (rounds : List Round) (c : Checker) (s : Session)
    → c.terminated ≡ false
    → check job rounds c ≡ some finished
    → s.over_dropped < (deliver job rounds c s).over_dropped
unfolding deliver check
deliver_ends job [] c s h e = ground arith
deliver_ends job (job_removed j result ∷ more) c s h e =
    ground (arith, deliver_keeps job more (callback job j result c) (match_signal_async_callback s))
deliver_ends job (handled ∷ more) c s h e = ground (arith, deliver_ends job more c s)
deliver_ends job (waited ∷ more) c s h e = ground (arith, deliver_ends job more c s)
deliver_ends job (process_fails n ∷ more) c s h e = ground arith
deliver_ends job (wait_fails n ∷ more) c s h e = ground arith

wait_for_counted :
    (rounds : List Round) (r : Expected Text × Session)
    → Post Ended Ended r
    → let s = drop_bus (drop_message (wait_for rounds r).1) in
      s.references ≡ (if any_send s.calls then 1 else 0)
wait_for_counted rounds (value job, s) p = ground (arith, deliver_keeps job rounds new_checker s)
wait_for_counted rounds (unexpected e, s) p = ground arith

new_session-Idle : Idle new_session
new_session-Idle = record { none_held = refl; no_references = refl; not_sent = refl }

-- Whatever the library answers and the bus does, the reference to the request is never given back once it
-- is sent: after `enter` the process still has one reference if a request was sent, and none otherwise.
pub enter_leaks :
    (lib : Library) (rounds : List Round) (id path : Text) (pid : ℤ)
    → let s = (enter lib rounds id path pid).1 in s.references ≡ (if any_send s.calls then 1 else 0)
unfolding enter
enter_leaks lib rounds id path pid =
    wait_for_counted rounds _
      ((dialogue-Leads lib (unit_names id path) pid).at new_session new_session-Idle)

wait_for_over_dropped :
    (rounds : List Round) (r : Expected Text × Session)
    → (wait_for rounds r).0 ≡ some finished
    → 0 < (drop_bus (drop_message (wait_for rounds r).1)).over_dropped
wait_for_over_dropped rounds (value job, s) e =
    ground (arith, deliver_ends job rounds new_checker s refl e)
wait_for_over_dropped rounds (unexpected n, s) e = cc

-- Each `enter` that succeeds has given back at least one reference that the process did not have: that of
-- the signal which ends the wait.
pub enter_over_drops :
    (lib : Library) (rounds : List Round) (id path : Text) (pid : ℤ)
    → (enter lib rounds id path pid).0 ≡ some finished
    → 0 < (enter lib rounds id path pid).1.over_dropped
unfolding enter
enter_over_drops lib rounds id path pid e = wait_for_over_dropped rounds _ e
