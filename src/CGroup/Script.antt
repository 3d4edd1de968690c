-- ===== src/CGroup/Script.antt =====
-- The dialogue of `CGroup::enter` in src/cgroup.cpp as one list of calls that are made in turn until the
-- library refuses one.
use mathlib.Core.List.{append-nil, append_assoc}
use runw.Common.{
  ◌≡◌, refl, sym, ap, ◌∙◌, ℕ, ℤ, pos, negsuc, suc, List, [], ◌∷◌, ◌++◌, Text, codes, ◌⊎◌, inl, inr,
  arith,
}
use runw.SdBus.Dialogue.{Expected, value, unexpected, Talk, ◌>>=◌}
use runw.SdBus.{
  Library, Answer, Session, Call, Arg, text, num, send, read, match_signal, new_method_call, append,
  open_container, close_container, called, take_message, checked, method_call, call, read_object,
  negated,
}
use runw.CGroup.UnitName.{UnitNames}
use runw.CGroup.Enter.{systemd, systemd_path, systemd_manager, request, append_slice}

-- The property that names the slice, if there is one.
abbrev pub slice_calls : Text → List Call
slice_calls [] = []
slice_calls (c ∷ slice) =
    append (codes "(sv)") (text (codes "Slice") ∷ text (codes "s") ∷ text (c ∷ slice) ∷ []) ∷ []

abbrev pub property : Text → Text → List Arg → Call
property name type args = append (codes "(sv)") (text name ∷ text type ∷ args)

abbrev pub tail_calls : ℤ → List Call
tail_calls pid =
    property (codes "Description") (codes "s") (text (codes "runw container") ∷ [])
    ∷ property (codes "PIDs") (codes "au") (num (pos 1) ∷ num pid ∷ [])
    ∷ property (codes "Delegate") (codes "b") (num (pos 1) ∷ [])
    ∷ close_container
    ∷ append (codes "a(sa(sv))") (num (pos 0) ∷ [])
    ∷ send 0
    ∷ read (codes "o")
    ∷ []

-- All calls, if none is refused.
abbrev pub script : UnitNames → ℤ → List Call
script names pid =
    match_signal systemd systemd_path systemd_manager (codes "JobRemoved")
      ∷ new_method_call systemd systemd_path systemd_manager (codes "StartTransientUnit")
      ∷ append (codes "ss") (text names.scope ∷ text (codes "fail") ∷ [])
      ∷ open_container b'a' (codes "(sv)")
      ∷ slice_calls names.slice
    ++ tail_calls pid

-- A refused call's error: that of the error object for a request, the code for the others.
abbrev pub refusal : Call → Answer → ℤ
refusal (send usec) a = a.errno
refusal _ a = negated a.code

-- The calls in turn, and in the end the text that the last one read.
pub run_script : Library → List Call → List Call → Expected Text × List Call
run_script lib log [] = (value (lib log).object, log)
run_script lib log (c ∷ cs) =
    let log' = log ++ c ∷ [] in
    elim (lib log').code [
      | pos n ↦ run_script lib log' cs
      | negsuc n ↦ (unexpected (refusal c (lib log')), log')
    ]

abbrev pub seen : Expected Text × Session → Expected Text × List Call
seen (r, s) = (r, s.calls)

pub sign : (z : ℤ) → ((n : ℕ) × (z ≡ pos n)) ⊎ ((n : ℕ) × (z ≡ negsuc n))
sign (pos n) = inl (n, refl)
sign (negsuc n) = inr (n, refl)

refused_by :
    (z : ℤ) (n : ℕ) (log : List Call)
    → z ≡ negsuc n
    → ◌≡◌ {A = Expected Text × List Call}
        (unexpected (pos (suc n)), log)
        (unexpected (negated z), log)
refused_by z n log e = ap (λ x. (unexpected x, log)) (sym (ap negated e))

take_message_calls : (s : Session) → (take_message s).calls ≡ s.calls
take_message_calls s = ground arith

module _ (lib : Library) where
  -- One call with its continuation, for each kind of call.
  checked_step :
      (c : Call) (k : Unit {0} → Talk Session Text) (cs : List Call) (s : Session)
      → refusal c (lib (s.calls ++ c ∷ [])) ≡ negated (lib (s.calls ++ c ∷ [])).code
      → ((s' : Session) → seen (k tt s') ≡ run_script lib s'.calls cs)
      → seen ((checked lib c >>= k) s) ≡ run_script lib s.calls (c ∷ cs)
  unfolding ◌>>=◌ checked run_script
  checked_step c k cs s h next = elim (sign (lib (s.calls ++ c ∷ [])).code) [
    | inl (n, e) ↦ rw (e, run_script) (next (called c s))
    | inr (n, e) ↦
        rw (e, run_script) (ap (λ x. (unexpected x, s.calls ++ c ∷ [])) (sym (h ∙ ap negated e)))
  ]

  method_step :
      (d p i m : Text) (k : Unit {0} → Talk Session Text) (cs : List Call) (s : Session)
      → ((s' : Session) → seen (k tt s') ≡ run_script lib s'.calls cs)
      → seen ((method_call lib d p i m >>= k) s)
        ≡ run_script lib s.calls (new_method_call d p i m ∷ cs)
  unfolding ◌>>=◌ method_call checked run_script
  method_step d p i m k cs s next =
      let c = new_method_call d p i m in
      elim (sign (lib (s.calls ++ c ∷ [])).code) [
        | inl (n, e) ↦
            rw (e, run_script)
              (next (take_message (called c s))
                ∙ ap (λ x. run_script lib x cs) (take_message_calls (called c s)))
        | inr (n, e) ↦ rw (e, run_script) (refused_by _ n _ e)
      ]

  call_step :
      (usec : ℕ) (k : Unit {0} → Talk Session Text) (cs : List Call) (s : Session)
      → ((s' : Session) → seen (k tt s') ≡ run_script lib s'.calls cs)
      → seen ((call lib usec >>= k) s) ≡ run_script lib s.calls (send usec ∷ cs)
  unfolding ◌>>=◌ call run_script
  call_step usec k cs s next = elim (sign (lib (s.calls ++ send usec ∷ [])).code) [
    | inl (n, e) ↦ rw (e, run_script) (next _)
    | inr (n, e) ↦ rw (e, run_script) refl
  ]

  slice_step :
      (slice : Text) (k : Unit {0} → Talk Session Text) (cs : List Call) (s : Session)
      → ((s' : Session) → seen (k tt s') ≡ run_script lib s'.calls cs)
      → seen ((append_slice lib slice >>= k) s) ≡ run_script lib s.calls (slice_calls slice ++ cs)
  unfolding ◌>>=◌
  slice_step [] k cs s next = next s
  slice_step (c ∷ slice) k cs s next = checked_step _ k cs s refl next

  read_step :
      (types : Text) (s : Session)
      → seen (read_object lib types s) ≡ run_script lib s.calls (read types ∷ [])
  unfolding read_object run_script
  read_step types s = elim (sign (lib (s.calls ++ read types ∷ [])).code) [
    | inl (n, e) ↦ rw (e, run_script) refl
    | inr (n, e) ↦ rw (e, run_script) (refused_by _ n _ e)
  ]

  -- From the subscription on, `enter` makes the calls of the script in turn up to the first that the
  -- library refuses, and returns its error, or the path of the job if none is refused.
  pub request_lem :
      (names : UnitNames) (pid : ℤ) (s : Session)
      → seen (request lib names pid s) ≡ run_script lib s.calls (script names pid)
  unfolding request
  request_lem names pid s = checked_step _ _ _ s refl λ s. method_step _ _ _ _ _ _ s λ s.
      checked_step _ _ _ s refl λ s. checked_step _ _ _ s refl λ s.
        slice_step names.slice _ _ s λ s. checked_step _ _ _ s refl λ s.
          checked_step _ _ _ s refl λ s. checked_step _ _ _ s refl λ s.
            checked_step _ _ _ s refl
              λ s. checked_step _ _ _ s refl λ s. call_step _ _ _ s λ s. read_step _ s

refused_not_value : (e : ℤ) (job : Text) → ◌≡◌ {A = Expected Text} (unexpected e) (value job) → ⊥
refused_not_value e job h = cc

-- If no call is refused, all of the script has been called.
pub run_script_all :
    (lib : Library) (log cs : List Call) (job : Text)
    → (run_script lib log cs).0 ≡ value job
    → (run_script lib log cs).1 ≡ log ++ cs
unfolding run_script
run_script_all lib log [] job e = sym (append-nil log)
run_script_all lib log (c ∷ cs) job e = elim (sign (lib (log ++ c ∷ [])).code) [
  | inl (n, h) ↦
      rw (h, run_script)
        (run_script_all lib (log ++ c ∷ []) cs job (rw (h, run_script) at e)
          ∙ append_assoc log (c ∷ []) cs)
  | inr (n, h) ↦ absurd (refused_not_value _ _ (ap (λ x. x) (rw (h, run_script) at e)))
]
