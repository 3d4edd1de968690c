-- ===== src/Container/Lifecycle.antt =====
-- The states of a container that its process writes, in their order.
use runw.Common.{refl, ◌∙◌, ℕ, ◌+◌, ◌≤◌, arith, ◌≡◌, ℤ, Text}
use runw.State.{State, set_created, set_running, set_stopped}
use runw.State.Status.{StatusCode}

-- One change of status.
pub data Change : State → State → Type 0 where
  create :
      (s : State) (now : Text) (pid : ℤ)
      → s.status ≡ StatusCode.creating
      → Change s (set_created now pid s)
  run : (s : State) (now : Text) → s.status ≡ StatusCode.created → Change s (set_running now s)
  stop :
      (s : State) (code : ℤ) (now : Text)
      → s.status ≡ StatusCode.running
      → Change s (set_stopped code now s)

pub data Reached (s : State) : State → Type 0 where
  here : Reached s s
  after : (t u : State) → Reached s t → Change t u → Reached s u

-- The place of a status in the order.
abbrev pub rank : StatusCode → ℕ
rank StatusCode.unknown = 0
rank StatusCode.creating = 1
rank StatusCode.created = 2
rank StatusCode.running = 3
rank StatusCode.stopped = 4

abbrev pub SameContainer : State → State → Type 0
SameContainer s t =
    (t.container_id ≡ s.container_id)
    × (t.bundle_path ≡ s.bundle_path)
    × (t.systemd_cgroup ≡ s.systemd_cgroup)
    × (t.config ≡ s.config)

one_forward : (s t : State) → Change s t → SameContainer s t × (rank t.status ≡ rank s.status + 1)
unfolding set_created set_running set_stopped
one_forward _ _ (create s now pid h) = ((refl, refl, refl, refl), rw h)
one_forward _ _ (run s now h) = ((refl, refl, refl, refl), rw h)
one_forward _ _ (stop s code now h) = ((refl, refl, refl, refl), rw h)

-- Whatever states a container reaches, its id, its bundle, its configuration and its cgroup flag are
-- those of its first state, and its status never goes back.
pub only_forward : (s t : State) → Reached s t → SameContainer s t × (rank s.status ≤ rank t.status)
only_forward s t here = ((refl, refl, refl, refl), omega arith)
only_forward s _ (after t u r c) =
    let ((a, b, e, f), le) = only_forward s t r in
    let ((a', b', e', f'), step) = one_forward t u c in
    ((a' ∙ a, b' ∙ b, e' ∙ e, f' ∙ f), omega arith)
