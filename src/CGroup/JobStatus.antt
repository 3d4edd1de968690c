-- ===== src/CGroup/JobStatus.antt =====
-- `JobStatusChecker` of src/cgroup.cpp, which waits for systemd to finish a job.
use runw.SdBus.{Session, match_signal_async_callback}
use runw.Common.{
  ◌≡◌, refl, ℤ, pos, Bool, true, false, Option, none, some, List, [], ◌∷◌, Text, codes, text_eq,
  if◌then◌else◌, Bool-cases, inl, inr,
}

-- One round of the loop as the bus sees it: `process` gives a JobRemoved signal with its path and its
-- result to the callback, or handles something else, or has nothing to do, and `wait` returns, or one of
-- the two fails with an error code.
pub data Round : Type 0 where
  job_removed : Text → Text → Round
  handled waited : Round
  process_fails wait_fails : ℤ → Round

-- `Terminated` and `Error`.
pub record Checker : Type 0 where
  pub terminated : Bool
  pub error : Bool

abbrev pub new_checker : Checker
new_checker = record { terminated = false; error = false }

abbrev pub efault : ℤ
efault = pos 14

pub data Checked : Type 0 where
  finished : Checked
  fails : ℤ → Checked

-- `Callback`, on a message that can be read.
unfoldable pub callback : Text → Text → Text → Checker → Checker
callback path job result c =
    if text_eq path job
    then (if text_eq result (codes "done")
        then record c { terminated = true }
        else record { terminated = true; error = true })
    else c

-- What `check` returns after the loop.
abbrev pub verdict : Checker → Checked
verdict c = if c.error then fails efault else finished

-- The loop. `none`: it waits for more than these rounds.
unfoldable pub check : Text → List Round → Checker → Option Checked
unfolding callback
check path [] c = if c.terminated then some (verdict c) else none
check path (job_removed job result ∷ more) c =
    let rest = check path more (callback path job result c) in
    if c.terminated then some (verdict c) else rest
check path (handled ∷ more) c =
    let rest = check path more c in if c.terminated then some (verdict c) else rest
check path (waited ∷ more) c =
    let rest = check path more c in if c.terminated then some (verdict c) else rest
check path (process_fails e ∷ more) c = if c.terminated then some (verdict c) else some (fails e)
check path (wait_fails e ∷ more) c = if c.terminated then some (verdict c) else some (fails e)

-- What the signals do to the references of the process: each one that reaches the callback passes
-- through the wrapper.
unfoldable pub deliver : Text → List Round → Checker → Session → Session
unfolding callback
deliver path [] c s = s
deliver path (job_removed job result ∷ more) c s =
    let rest = deliver path more (callback path job result c) (match_signal_async_callback s) in
    if c.terminated then s else rest
deliver path (handled ∷ more) c s =
    let rest = deliver path more c s in if c.terminated then s else rest
deliver path (waited ∷ more) c s =
    let rest = deliver path more c s in if c.terminated then s else rest
deliver path (process_fails e ∷ more) c s = s
deliver path (wait_fails e ∷ more) c s = s

-- The first thing that settles the job: its own signal, or a failure of the bus.
pub expected : Text → List Round → Option Checked
expected path [] = none
expected path (job_removed job result ∷ more) =
    let rest = expected path more in
    if text_eq path job
    then some (if text_eq result (codes "done") then finished else fails efault)
    else rest
expected path (handled ∷ more) = expected path more
expected path (waited ∷ more) = expected path more
expected path (process_fails e ∷ more) = some (fails e)
expected path (wait_fails e ∷ more) = some (fails e)

-- A checker that is done returns at once.
check_terminated :
    (path : Text) (rounds : List Round) (c : Checker)
    → c.terminated ≡ true
    → check path rounds c ≡ some (verdict c)
unfolding check
check_terminated path [] c h = rw h refl
check_terminated path (job_removed job result ∷ more) c h = rw h refl
check_terminated path (handled ∷ more) c h = rw h refl
check_terminated path (waited ∷ more) c h = rw h refl
check_terminated path (process_fails e ∷ more) c h = rw h refl
check_terminated path (wait_fails e ∷ more) c h = rw h refl

-- Over every sequence of rounds, a new checker returns what the first signal of its own job or the first
-- failure of the bus says: success for "done", EFAULT for another result, the error code for a failure.
-- It goes on waiting exactly while there is none, and signals of other jobs do not matter.
pub check_lem :
    (path : Text) (rounds : List Round) → check path rounds new_checker ≡ expected path rounds
unfolding check expected callback
check_lem path [] = refl
check_lem path (job_removed job result ∷ more) = elim (Bool-cases (text_eq path job)) [
  | inr other ↦ rw other (check_lem path more)
  | inl own ↦ elim (Bool-cases (text_eq result (codes "done"))) [
    | inl done ↦
        rw own
          (rw done (check_terminated path more (record { terminated = true; error = false }) refl))
    | inr odd ↦
        rw own
          (rw odd (check_terminated path more (record { terminated = true; error = true }) refl))
  ]
]
check_lem path (handled ∷ more) = check_lem path more
check_lem path (waited ∷ more) = check_lem path more
check_lem path (process_fails e ∷ more) = refl
check_lem path (wait_fails e ∷ more) = refl
