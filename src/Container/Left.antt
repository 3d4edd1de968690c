-- ===== src/Container/Left.antt =====
-- One walk through the container's process of src/runw.cpp for every predicate on the states that it
-- writes to the state file.
use runw.CGroup.JobStatus.{Checked, finished, fails}
use runw.Common.{
  ◌≡◌, refl, ap, ◌∙◌, Bool, true, false, Option, none, some, ◌⊎◌, inl, inr, Text, text_eq, length,
  All, Bool-cases, [],
}
use runw.State.{State, set_created, set_running, set_stopped}
use runw.State.Status.{StatusCode}
use runw.State.Decimal.{print_int}
use runw.State.Print.{print}
use runw.Disk.{Disk, Os, file}
use runw.Disk.WholeFile.{WholeAt, atomic_update-WholeAt}
use runw.Disk.Atomicity.{Apart, AllOrNothing, atomic_writes}
use runw.Container.Namespaces.{enter_namespaces}
use runw.Container.Run.{
  entered, Run, Outcome, exit_failure, exit_of, written, after_program, run_program, wait_for_start,
  record_created, run_container,
}

-- What a predicate on states must keep to hold of every state that one run writes.
pub record Kept (r : Run) (P : State → Type 0) : Type 0 where
  pub created :
      (t : State) → t.status ≡ StatusCode.creating → P t → P (set_created r.created_at r.pid t)
  pub running : (t : State) → t.status ≡ StatusCode.created → P t → P (set_running r.started_at t)
  pub stopped :
      (t : State)
      → t.status ≡ StatusCode.running
      → P t
      → P (set_stopped (exit_of r.program_exit) r.finished_at t)

-- The file has a state with the predicate, and a returned value other than failure comes with a stopped one.
abbrev pub Left : (State → Type 0) → Text → Outcome → Type 0
Left P p none = Unit
Left P p (some (code, d)) =
    (t : State) × (d.node p ≡ some (file (print t)))
    × P t
    × ((t.status ≡ StatusCode.stopped) ⊎ (code ≡ exit_failure))

module _ (os : Os) (whole : (d : Disk) (p text : Text) → os.stored d p text ≡ text) (p : Text)
    (P : State → Type 0) where
  -- A failed write leaves the state before it, and a write that succeeds goes on with the next.
  written-Left :
      (t u : State) (d : Disk) (r : Option (Bool × Disk)) (k : Disk → Outcome)
      → d.node p ≡ some (file (print t))
      → P t
      → WholeAt os p (print u) d r
      → ((d' : Disk) → d'.node p ≡ some (file (print u)) → Left P p (k d'))
      → Left P p (written r k)
  written-Left t u d none k there reached w h = tt
  written-Left t u d (some (true, d')) k there reached (b, temp, w) h =
      h d' (w ∙ ap (λ x. some (file x)) (whole b temp (print u)))
  written-Left t u d (some (false, d')) k there reached w h = (t, w ∙ there, reached, inr refl)

  entered-Left :
      (t : State) (o : Option Checked) (d : Disk) (k : Outcome)
      → d.node p ≡ some (file (print t))
      → P t
      → Left P p k
      → Left P p (entered o d k)
  entered-Left t none d k there reached h = tt
  entered-Left t (some finished) d k there reached h = h
  entered-Left t (some (fails e)) d k there reached h = (t, there, reached, inr refl)

  module _ (r : Run) (created_six : All (λ x. length x ≡ 6) r.created_suffixes)
      (running_six : All (λ x. length x ≡ 6) r.running_suffixes)
      (stopped_six : All (λ x. length x ≡ 6) r.stopped_suffixes) (kept : Kept r P) where
    after_program-Left :
        (t : State) (d : Disk)
        → d.node p ≡ some (file (print t))
        → P t
        → t.status ≡ StatusCode.running
        → Left P p (after_program os r p t d)
    unfolding after_program set_stopped
    after_program-Left t d there reached status =
        let code = exit_of r.program_exit in
        let u = set_stopped code r.finished_at t in
        written-Left t u d _ _ there reached
          (atomic_update-WholeAt os r.stopped_suffixes p (print u) d stopped_six)
          (λ d' h. (u, h, kept.stopped t status reached, inl refl))

    run_program-Left :
        (t : State) (d : Disk)
        → d.node p ≡ some (file (print t))
        → P t
        → t.status ≡ StatusCode.created
        → Left P p (run_program os r p t d)
    unfolding run_program set_running
    run_program-Left t d there reached status =
        let u = set_running r.started_at t in
        written-Left t u d _ _ there reached
          (atomic_update-WholeAt os r.running_suffixes p (print u) d running_six)
          (λ d' h. after_program-Left u d' h (kept.running t status reached) refl)

    wait_for_start-Left :
        (has_fifo : Bool) (t : State) (d : Disk)
        → d.node p ≡ some (file (print t))
        → P t
        → t.status ≡ StatusCode.created
        → Left P p (wait_for_start os r has_fifo p t d)
    unfolding wait_for_start
    wait_for_start-Left has_fifo t d there reached status =
        let go = run_program-Left t d there reached status in
        let stay : Left P p (some (exit_failure, d)) = (t, there, reached, inr refl) in
        elim (Bool-cases has_fifo) [
          | inr off ↦ rw (off, wait_for_start) go
          | inl waits ↦ elim (Bool-cases r.selects_fifo) [
            | inr off ↦ rw (waits, wait_for_start) (rw off stay)
            | inl selects ↦ elim (Bool-cases r.reads_fifo) [
              | inr off ↦ rw (waits, wait_for_start) (rw (selects, off) stay)
              | inl reads ↦ rw (waits, wait_for_start) (rw (selects, reads) go)
            ]
          ]
        ]

    -- The new state is in the file only after a write: until then it has the one before.
    record_created-Left :
        (has_fifo : Bool) (t u : State) (d : Disk)
        → d.node p ≡ some (file (print t))
        → P t
        → P u
        → u.status ≡ StatusCode.created
        → Left P p (record_created os r has_fifo p u d)
    unfolding record_created
    record_created-Left has_fifo t u d there reached change status =
        let stay : Left P p (some (exit_failure, d)) = (t, there, reached, inr refl) in
        elim (Bool-cases (enter_namespaces r.kernel u.config.namespaces)) [
          | inr off ↦ rw (off, record_created) stay
          | inl enters ↦
              rw (enters, record_created)
                (entered-Left t _ d _ there reached (
                  written-Left t u d _ _ there reached
                    (atomic_update-WholeAt os r.created_suffixes p (print u) d created_six)
                    (λ d' h. wait_for_start-Left has_fifo u d' h change status)))
        ]

-- What a write of another file does to this one.
abbrev SparesFile : Disk → Text → Option (Bool × Disk) → Type 0
SparesFile d p none = Unit
SparesFile d p (some (_, d')) = d'.node p ≡ d.node p

written-SparesFile :
    (P : State → Type 0) (s : State) (p : Text) (d : Disk) (r : Option (Bool × Disk))
    (k : Disk → Outcome)
    → P s
    → d.node p ≡ some (file (print s))
    → SparesFile d p r
    → ((d' : Disk) → d'.node p ≡ some (file (print s)) → Left P p (k d'))
    → Left P p (written r k)
written-SparesFile P s p d none k first there spares h = tt
written-SparesFile P s p d (some (true, d')) k first there spares h = h d' (spares ∙ there)
written-SparesFile P s p d (some (false, d')) k first there spares h =
    (s, spares ∙ there, first, inr refl)

AllOrNothing-SparesFile :
    (os : Os) (path text q : Text) (d : Disk) (r : Option (Bool × Disk))
    → AllOrNothing os path text d q r
    → SparesFile d q r
AllOrNothing-SparesFile os path text q d none h = tt
AllOrNothing-SparesFile os path text q d (some (true, d')) h = h.1
AllOrNothing-SparesFile os path text q d (some (false, d')) h = h.1

pub run_container-Left :
    (P : State → Type 0) (os : Os)
    → ((d : Disk) (p text : Text) → os.stored d p text ≡ text)
    → (r : Run) → Kept r P
    → All (λ x. length x ≡ 6) r.pid_suffixes
    → All (λ x. length x ≡ 6) r.created_suffixes
    → All (λ x. length x ≡ 6) r.running_suffixes
    → All (λ x. length x ≡ 6) r.stopped_suffixes
    → (has_fifo : Bool) (pid_file p : Text) (s : State) (d : Disk) → Apart pid_file r.pid_suffixes p
    → text_eq pid_file p ≡ false
    → s.status ≡ StatusCode.creating
    → d.node p ≡ some (file (print s))
    → P s
    → Left P p (run_container os r has_fifo pid_file p s d)
unfolding run_container set_created
run_container-Left P os whole r kept pid_six created_six running_six stopped_six has_fifo pid_file p
      s d apart other status there first =
    let pid_text = print_int r.pid [] in
    let u = set_created r.created_at r.pid s in
    written-SparesFile P s p d _ _ first there
      (AllOrNothing-SparesFile os pid_file pid_text p d _
        (atomic_writes os r.pid_suffixes pid_file pid_text p d pid_six apart other).0)
      (λ d' h.
        record_created-Left os whole p P r created_six running_six stopped_six kept has_fifo s u d'
          h first (kept.created s status first) refl)
