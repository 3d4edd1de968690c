-- ===== src/Command/Ready.antt =====
-- What a `doCreate` of src/runw.cpp that succeeds hands to the container's process.
use runw.Common.{
  ◌≡◌, refl, ◌∙◌, ap, sym, ◌++◌, Bool, true, false, ◌&&◌, Option, none, some, List, [], ◌∷◌, Text,
  codes, text_eq, text_eq_self, length, All, Bool-cases, arith, inl, inr,
}
use runw.FilePath.{join, has_filename}
use runw.Json.{Simdjson}
use runw.Bundle.{Bundle}
use runw.Disk.{Disk, Os, file, fifo, put}
use runw.Disk.WholeFile.{WholeAt, atomic_create-WholeAt}
use runw.State.{State, fresh, set_creating, set_systemd_cgroup}
use runw.State.Status.{StatusCode}
use runw.State.Load.{load_bundle, with_config}
use runw.State.Print.{print}
use runw.Command.{success, container_root, state_file, exec_fifo}
use runw.Command.Create.{
  Launch, Created, launch, with_fifo, after_state, loaded_bundle, first_state, do_create, run_child,
  run_daemon, parent_succeeds,
}
use runw.Command.Created.{some_value, exit_differs}

text_eq-append_left : (p s t : Text) → text_eq (p ++ s) (p ++ t) ≡ text_eq s t
unfolding text_eq
text_eq-append_left [] s t = refl
text_eq-append_left (c ∷ p) s t = ground (arith, text_eq-append_left p s t)

fifo_elsewhere : (root id : Text) → text_eq (exec_fifo root id) (state_file root id) ≡ false
unfolding join text_eq
fifo_elsewhere root id = elim (Bool-cases (has_filename (container_root root id))) [
  | inl h ↦
      rw (h, join)
        (text_eq-append_left (container_root root id) (codes "/exec.fifo") (codes "/state.json"))
  | inr h ↦
      rw (h, join)
        (text_eq-append_left (container_root root id) (codes "exec.fifo") (codes "state.json"))
]

true_differs : false ≡ true → ⊥
true_differs h = cc

-- A container's process is there only where no scope exit removes the directory.
run_child_keeps :
    (l : Launch) (console : Text)
    → (run_child l console).container ≡ true
    → (run_child l console).removes ≡ false
unfolding run_child run_daemon
run_child_keeps l console h = ground arith

launch_keeps :
    (os : Os) (l : Launch) (root console : Text) (d : Disk)
    → (launch os l root console d).exit ≡ success
    → (launch os l root console d).container ≡ true
    → (launch os l root console d).disk ≡ d
unfolding launch
launch_keeps os l root console d h there =
    let kept = run_child_keeps l console there in
    elim (Bool-cases (parent_succeeds l.pipe_read (run_child l console).reply)) [
      | inl ok ↦ rw (ok, launch) (rw kept refl)
      | inr failed ↦ absurd (exit_differs (sym (rw failed at h)))
    ]

with_fifo_keeps :
    (os : Os) (l : Launch) (root p console : Text) (d : Disk)
    → (with_fifo os l root p console d).exit ≡ success
    → (with_fifo os l root p console d).container ≡ true
    → (with_fifo os l root p console d).disk ≡ put d p (some fifo)
unfolding with_fifo
with_fifo_keeps os l root p console d h there = elim (Bool-cases l.makes_fifo) [
  | inr off ↦ absurd (true_differs (rw off at there))
  | inl made ↦ elim (Bool-cases (l.opens_fifo && (l.makes_pipe && l.forks_child))) [
    | inr off ↦ absurd (true_differs (rw (made, off) at there))
    | inl forks ↦
        rw (made, with_fifo)
          (rw forks (
            launch_keeps os l root console (put d p (some fifo)) (rw (made, forks) at h)
              (rw (made, forks) at there)))
  ]
]

-- The files that the container's process finds.
abbrev pub Ready : Text → Text → Text → Disk → Type 0
Ready root id path d =
    ((s : State) × (d.node (state_file root id) ≡ some (file (print s)))
      × (s.status ≡ StatusCode.creating)
      × (s.container_id ≡ id)
      × (s.bundle_path ≡ path))
    × (d.node (exec_fifo root id) ≡ some fifo)

-- The first state of a container with a configuration.
abbrev pub first_of : Bool → Text → Text → Bundle → State
first_of systemd id path b = first_state systemd (record (fresh id path) { config = b })

abbrev pub Holds : Text → Text → State → Disk → Type 0
Holds root id s d =
    (d.node (state_file root id) ≡ some (file (print s))) × (d.node (exec_fifo root id) ≡ some fifo)

module _ (os : Os) (whole : (d : Disk) (p text : Text) → os.stored d p text ≡ text) (l : Launch)
    (root id path console : Text) where
  after_state-Holds :
      (s : State) (d : Disk) (r : Option (Bool × Disk)) (c : Created)
      → WholeAt os (state_file root id) (print s) d r
      → after_state os
          (container_root root id)
          r
          (with_fifo os l (container_root root id) (exec_fifo root id) console)
        ≡ some c
      → c.exit ≡ success
      → c.container ≡ true
      → Holds root id s c.disk
  unfolding put
  after_state-Holds s d none c w e x there = absurd (let h : ⊥ = cc in h)
  after_state-Holds s d (some (false, d')) c w e x there =
      absurd (exit_differs (sym (ap (λ y. y.exit) (some_value _ c e) ∙ x)))
  after_state-Holds s d (some (true, d')) c (o, temp, w) e x there =
      let made = with_fifo os l (container_root root id) (exec_fifo root id) console d' in
      let same = some_value made c e in
      let disk : c.disk ≡ put d' (exec_fifo root id) (some fifo) =
        sym (ap (λ y. y.disk) same)
        ∙ with_fifo_keeps os l (container_root root id) (exec_fifo root id) console d'
            (ap (λ y. y.exit) same ∙ x) (ap (λ y. y.container) same ∙ there) in
      (
        rw (disk, fifo_elsewhere root id) (w ∙ ap (λ y. some (file y)) (whole o temp (print s))),
        rw (disk, text_eq_self (exec_fifo root id)) refl,
      )

  loaded_bundle-Holds :
      (suffixes : List Text) (systemd : Bool) (d : Disk) (r : Bundle × Bool) (c : Created)
      → All (λ s. length s ≡ 6) suffixes
      → loaded_bundle os l suffixes root id console systemd d (with_config (fresh id path) r)
        ≡ some c
      → c.exit ≡ success
      → c.container ≡ true
      → Holds root id (first_of systemd id path r.0) c.disk
  loaded_bundle-Holds suffixes systemd d (b, false) c six e x there =
      absurd (exit_differs (sym (ap (λ y. y.exit) (some_value _ c e) ∙ x)))
  loaded_bundle-Holds suffixes systemd d (b, true) c six e x there =
      let s = first_of systemd id path b in
      after_state-Holds s d _ c
        (atomic_create-WholeAt os suffixes (state_file root id) (print s) d six) e x there

-- The state of a `create` that has started the container's process is its first one.
pub do_create-Holds :
    (S : Simdjson) (os : Os)
    → ((d : Disk) (p text : Text) → os.stored d p text ≡ text)
    → (l : Launch) (suffixes : List Text) → All (λ s. length s ≡ 6) suffixes
    → (root : Text) (systemd : Bool) (config_name id path console : Text) (d d' : Disk)
      (c : Created)
    → l.makes_directories d (container_root root id) ≡ some d'
    → do_create S os l suffixes root systemd config_name id path console d ≡ some c
    → c.exit ≡ success
    → c.container ≡ true
    → (b : Bundle) × Holds root id (first_of systemd id path b) c.disk
unfolding do_create load_bundle
do_create-Holds S os whole l suffixes six root systemd config_name id path console d d' c made e x
      there =
    (
      _,
      loaded_bundle-Holds os whole l root id path console suffixes systemd d' _ c six (rw made at e)
          x there,
    )

-- Where texts reach files whole and suffixes have six letters, a `create` that succeeds and has started
-- the container's process has left the text of a creating state with the given id and bundle in the
-- state file, and has left the fifo.
pub do_create-Ready :
    (S : Simdjson) (os : Os)
    → ((d : Disk) (p text : Text) → os.stored d p text ≡ text)
    → (l : Launch) (suffixes : List Text) → All (λ s. length s ≡ 6) suffixes
    → (root : Text) (systemd : Bool) (config_name id path console : Text) (d d' : Disk)
      (c : Created)
    → l.makes_directories d (container_root root id) ≡ some d'
    → do_create S os l suffixes root systemd config_name id path console d ≡ some c
    → c.exit ≡ success
    → c.container ≡ true
    → Ready root id path c.disk
unfolding first_state set_creating set_systemd_cgroup
do_create-Ready S os whole l suffixes six root systemd config_name id path console d d' c made e x
      there =
    let (b, (node, fifo_there)) =
      do_create-Holds S os whole l suffixes six root systemd config_name id path console d d' c made
        e x there in
    ((first_of systemd id path b, node, refl, refl, refl), fifo_there)
