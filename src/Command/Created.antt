-- ===== src/Command/Created.antt =====
-- What `doCreate` of src/runw.cpp leaves of a container, on each of its outcomes.
use runw.Common.{
  ◌≡◌, refl, sym, ◌∙◌, ap, Bool, true, false, ◌&&◌, Option, none, some, List, Text, Bool-cases,
  arith, inl, inr,
}
use runw.Json.{Simdjson}
use runw.Disk.{Disk, Os, fifo, put, remove_all, is_below}
use runw.State.{State}
use runw.Command.{success, failure, container_root, exec_fifo}
use runw.Command.Create.{
  Launch, Created, completes, launch, with_fifo, after_state, loaded_bundle, connect_console,
  refused, do_create, run_child, parent_succeeds, given_up,
}

pub some_value : (a b : Created) → ◌≡◌ {A = Option Created} (some a) (some b) → a ≡ b
some_value a b h = cc

pub exit_differs : success ≡ failure → ⊥
exit_differs h = cc

module _ (os : Os) (removes : (d : Disk) (p : Text) → os.removes d p ≡ true) (root q : Text)
    (below : is_below root q ≡ true) where
  gone_as :
      (a b : Created)
      → ◌≡◌ {A = Option Created} (some a) (some b)
      → a.disk.node q ≡ none
      → b.disk.node q ≡ none
  gone_as a b h gone = sym (ap (λ x. x.disk.node q) (some_value a b h)) ∙ gone

  removed : (d : Disk) → (remove_all os d root).0.node q ≡ none
  unfolding remove_all
  removed d = rw (below, removes d root, remove_all) refl

  launch_gone :
      (l : Launch) (console : Text) (d : Disk)
      → (launch os l root console d).exit ≡ failure
      → (launch os l root console d).disk.node q ≡ none
  unfolding launch
  launch_gone l console d h =
      elim (Bool-cases (parent_succeeds l.pipe_read (run_child l console).reply)) [
        | inl ok ↦ absurd (exit_differs (rw ok at h))
        | inr failed ↦ rw (failed, launch) (removed _)
      ]

  with_fifo_gone :
      (l : Launch) (fifo_path console : Text) (d : Disk)
      → (with_fifo os l root fifo_path console d).exit ≡ failure
      → (with_fifo os l root fifo_path console d).disk.node q ≡ none
  unfolding with_fifo
  with_fifo_gone l fifo_path console d h =
      let d' = put d fifo_path (some fifo) in
      elim (Bool-cases l.makes_fifo) [
        | inr off ↦ rw (off, with_fifo) (removed d)
        | inl made ↦ elim (Bool-cases (l.opens_fifo && (l.makes_pipe && l.forks_child))) [
          | inr off ↦ rw (made, with_fifo) (rw off (removed d'))
          | inl forks ↦
              rw (made, with_fifo) (rw forks (launch_gone l console d' (rw (made, forks) at h)))
        ]
      ]

  after_state_gone :
      (r : Option (Bool × Disk)) (k : Disk → Created) (c : Created)
      → ((d : Disk) → (k d).exit ≡ failure → (k d).disk.node q ≡ none)
      → after_state os root r k ≡ some c
      → c.exit ≡ failure
      → c.disk.node q ≡ none
  after_state_gone none k c h e x = cc
  after_state_gone (some (true, d)) k c h e x =
      gone_as (k d) c e (h d (ap (λ y. y.exit) (some_value (k d) c e) ∙ x))
  after_state_gone (some (false, d)) k c h e x = gone_as (given_up os root d) c e (removed d)

module _ (os : Os) (removes : (d : Disk) (p : Text) → os.removes d p ≡ true) (base id q : Text)
    (below : is_below (container_root base id) q ≡ true) where
  loaded_bundle_gone :
      (l : Launch) (suffixes : List Text) (console : Text) (systemd : Bool) (d : Disk)
      (r : State × Bool) (c : Created)
      → loaded_bundle os l suffixes base id console systemd d r ≡ some c
      → c.exit ≡ failure
      → c.disk.node q ≡ none
  loaded_bundle_gone l suffixes console systemd d (s, false) c e x =
      let root = container_root base id in
      gone_as os removes root q below (given_up os root d) c e (removed os removes root q below d)
  loaded_bundle_gone l suffixes console systemd d (s, true) c e x =
      after_state_gone os removes (container_root base id) q below _ _ c
        (λ b h. with_fifo_gone os removes _ q below l (exec_fifo base id) console b h) e x

-- Where removals succeed, a `create` that has made the container's directory and fails leaves nothing at
-- the directory or below it.
pub do_create_gone :
    (S : Simdjson) (os : Os)
    → ((d : Disk) (p : Text) → os.removes d p ≡ true)
    → (l : Launch) (suffixes : List Text) (root : Text) (systemd : Bool)
    → (config_name id path console q : Text) (d d' : Disk) (c : Created)
    → l.makes_directories d (container_root root id) ≡ some d'
    → do_create S os l suffixes root systemd config_name id path console d ≡ some c
    → c.exit ≡ failure
    → is_below (container_root root id) q ≡ true
    → c.disk.node q ≡ none
unfolding do_create
do_create_gone S os removes l suffixes root systemd config_name id path console q d d' c made e x
      below =
    loaded_bundle_gone os removes root id q below l suffixes console systemd d' _ c (rw made at e) x

-- If the console socket is refused, the command still ends with success, unless its read of the pipe
-- fails: the daemon ends without a reply, no container's process is there, and, where removals succeed,
-- nothing is left at the container's directory or below it.
pub refused_console :
    (os : Os)
    → ((d : Disk) (p : Text) → os.removes d p ≡ true)
    → (l : Launch) (root console q : Text) (d : Disk) → l.pipe_read ≡ completes
    → connect_console l console ≡ false
    → is_below root q ≡ true
    → ((launch os l root console d).exit ≡ success)
      × ((launch os l root console d).container ≡ false)
      × ((launch os l root console d).disk.node q ≡ none)
unfolding launch run_child parent_succeeds
refused_console os removes l root console q d reads off below =
    let gone = removed os removes root q below d in
    let out : run_child l console ≡ refused = ground (arith, off) in
    rw (out, reads, launch) (refl, refl, gone)
