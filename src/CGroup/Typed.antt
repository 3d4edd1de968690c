-- ===== src/CGroup/Typed.antt =====
-- The D-Bus types of the request that `CGroup::enter` of src/cgroup.cpp fills.
use runw.CGroup.References.{deliver_keeps}
use runw.CGroup.JobStatus.{new_checker, Round, finished}
use runw.Common.{
  ◌||◌, ◌≡◌, refl, sym, ap, inl, inr, ◌∙◌, ℕ, zero, suc, ℤ, pos, Bool, true, false, List, [], ◌∷◌,
  ◌++◌, ◌&&◌, Text, codes, text_eq, ◌==◌, Option, none, some, if◌then◌else◌, arith,
}
use runw.SdBus.Dialogue.{resume, ◌>>=◌, Expected, value, unexpected}
use runw.SdBus.{
  open_user, open_system, checked, new_session, default_system, drop_message, drop_bus,
  default_user, Library, Call, Arg, text, num, send, append, open_container, close_container,
  Session,
}
use runw.CGroup.UnitName.{unit_names, UnitNames}
use runw.CGroup.Enter.{wait_for, dialogue, enter, request, open_bus, dialogue, enter}
use runw.CGroup.Script.{script, request_lem, run_script_all, sign}

abbrev is_text : ℕ → Bool
is_text c = c == b's' || c == b'o'

abbrev is_num : ℕ → Bool
is_num c = c == b'u' || c == b'b'

abbrev is_mark : ℕ → Bool
is_mark c = c == b'(' || c == b')'

abbrev repeat : ℕ → Text → Text
repeat zero types = []
repeat (suc n) types = types ++ repeat n types

-- One letter of a list of types, where `rest` decides the others. An array stands at the end of its list
-- here, so that what follows its letter is its element type.
abbrev fits_text : (List Arg → Bool) → List Arg → Bool
fits_text rest (text t ∷ args) = rest args
fits_text rest _ = false

abbrev fits_num : (List Arg → Bool) → List Arg → Bool
fits_num rest (num z ∷ args) = rest args
fits_num rest _ = false

abbrev fits_variant : (Text → List Arg → Bool) → Text → List Arg → Bool
fits_variant rest types (text t ∷ args) = rest (t ++ types) args
fits_variant rest types _ = false

abbrev fits_array : (Text → List Arg → Bool) → Text → List Arg → Bool
fits_array rest types (num (pos n) ∷ args) = rest (repeat n types) args
fits_array rest types _ = false

abbrev fits_letter : (Text → List Arg → Bool) → ℕ → Text → List Arg → Bool
fits_letter rest c types args =
    if is_mark c
    then rest types args
    else if is_text c
    then fits_text (rest types) args
    else if is_num c
    then fits_num (rest types) args
    else if c == b'v'
    then fits_variant rest types args
    else c == b'a' && fits_array rest types args

-- Whether values fit a list of types, of which at most `fuel` letters are read.
pub fits : ℕ → Text → List Arg → Bool
fits fuel [] [] = true
fits fuel [] (_ ∷ _) = false
fits zero (c ∷ types) args = false
fits (suc fuel) (c ∷ types) args = fits_letter (fits fuel) c types args

-- The type of a message's body after some calls: `none` if a value does not fit its type, or an element
-- its container. The second part is the element type of the container that is open.
abbrev pub Body : Type 0
Body = Option (Text × Option Text)

abbrev appended : Text → List Arg → Text × Option Text → Body
appended types args (body, none) = if fits 32 types args then some (body ++ types, none) else none
appended types args (body, some element) =
    if fits 32 types args && text_eq types element then some (body, some element) else none

abbrev opened : ℕ → Text → Text × Option Text → Body
opened kind contents (body, none) = some (body ++ kind ∷ contents, some contents)
opened kind contents (body, some element) = none

abbrev closed : Text × Option Text → Body
closed (body, none) = none
closed (body, some element) = some (body, none)

abbrev after_call : Call → Text × Option Text → Body
after_call (append types args) b = appended types args b
after_call (open_container kind contents) b = opened kind contents b
after_call close_container b = closed b
after_call _ b = some b

abbrev bind_body : Body → (Text × Option Text → Body) → Body
bind_body none k = none
bind_body (some b) k = k b

-- What is in the message when it is sent, and the container that is then open.
pub sent_body : List Call → Text × Option Text → Body
sent_body [] b = none
sent_body (send usec ∷ cs) b = some b
sent_body (c ∷ cs) b = bind_body (after_call c b) (sent_body cs)

abbrev pub request_type : Text
request_type = codes "ssa(sv)a(sa(sv))"

script_typed :
    (scope slice : Text) (pid : ℤ)
    → sent_body (script (record { scope = scope; slice = slice }) pid) ([], none)
      ≡ some (request_type, none)
unfolding sent_body fits text_eq
script_typed scope [] pid = refl
script_typed scope (c ∷ slice) pid = refl

-- Opening a bus, or two, puts nothing into the message.
Opening : List Call → Type 0
Opening log = (cs : List Call) (b : Text × Option Text) → sent_body (log ++ cs) b ≡ sent_body cs b

abbrev FromOpening : Expected (Unit {0}) × Session → Type 0
FromOpening (value u, s) = Opening s.calls
FromOpening (unexpected e, s) = Opening s.calls

open_bus-Opening : (lib : Library) → FromOpening (open_bus lib new_session)
unfolding open_bus default_user default_system checked Opening sent_body
open_bus-Opening lib = elim (sign (lib (open_user ∷ [])).code) [
  | inl (n, e) ↦ rw e (λ cs b. refl)
  | inr (n, e) ↦ elim (sign (lib (open_user ∷ open_system ∷ [])).code) [
    | inl (m, h) ↦ rw (e, h) (λ cs b. refl)
    | inr (m, h) ↦ rw (e, h) (λ cs b. refl)
  ]
]

request_typed :
    (lib : Library) (names : UnitNames) (pid : ℤ) (s : Session) (job : Text)
    → Opening s.calls
    → (request lib names pid s).0 ≡ value job
    → sent_body (request lib names pid s).1.calls ([], none) ≡ some (request_type, none)
unfolding Opening
request_typed lib names pid s job o e =
    let same = request_lem lib names pid s in
    let all = run_script_all lib s.calls (script names pid) job (sym (ap (λ x. x.0) same) ∙ e) in
    ap (λ log. sent_body log ([], none)) (ap (λ x. x.1) same ∙ all)
    ∙ (o (script names pid) ([], none) ∙ script_typed names.scope names.slice pid)

opened_typed :
    (lib : Library) (names : UnitNames) (pid : ℤ) (r : Expected (Unit {0}) × Session) (job : Text)
    → FromOpening r
    → (resume r (λ _. request lib names pid)).0 ≡ value job
    → sent_body (resume r (λ _. request lib names pid)).1.calls ([], none)
      ≡ some (request_type, none)
opened_typed lib names pid (value u, s) job o e = request_typed lib names pid s job o e
opened_typed lib names pid (unexpected n, s) job o e = cc

waited_typed :
    (rounds : List Round) (r : Expected Text × Session)
    → ((job : Text) → r.0 ≡ value job → sent_body r.1.calls ([], none) ≡ some (request_type, none))
    → (wait_for rounds r).0 ≡ some finished
    → sent_body (drop_bus (drop_message (wait_for rounds r).1)).calls ([], none)
      ≡ some (request_type, none)
waited_typed rounds (value job, s) h e =
    ap (λ log. sent_body log ([], none)) (ground (arith, deliver_keeps job rounds new_checker s))
    ∙ h job refl
waited_typed rounds (unexpected n, s) h e = cc

-- Each `enter` that succeeds has sent one complete message, of the type that StartTransientUnit takes:
-- every value in it fits its type, every property the array that it stands in, and no container is left
-- open.
pub enter_typed :
    (lib : Library) (rounds : List Round) (id path : Text) (pid : ℤ)
    → (enter lib rounds id path pid).0 ≡ some finished
    → sent_body (enter lib rounds id path pid).1.calls ([], none) ≡ some (request_type, none)
unfolding enter dialogue ◌>>=◌
enter_typed lib rounds id path pid e =
    waited_typed rounds _
      (λ job.
        opened_typed lib (unit_names id path) pid (open_bus lib new_session) job
          (open_bus-Opening lib))
      e
