-- ===== src/Container/Namespaces.antt =====
-- The namespaces that the container's process creates and joins (src/runw.cpp, in doRunInternal).
use runw.Common.{
  ◌≡◌, refl, ◌∙◌, arith, Bool, true, false, ◌&&◌, ◌==◌, Option, none, some, List, [], ◌∷◌, ◌++◌,
  Text, codes, text_eq, if◌then◌else◌,
}
use runw.Loader.{Step, each, next, first}
use runw.Bundle.{NamespaceDesc}

-- The CLONE_NEW* constants.
pub data Flag : Type 0 where
  newcgroup newipc newns newnet newpid newtime newuts newuser : Flag

-- `UnshareFlags`, as the flags in the order in which they are added, and `SetNsFlags`, with the path in
-- place of its descriptor.
pub record Flags : Type 0 where
  pub unshare : List Flag
  pub setns : List (Text × Flag)

abbrev pub no_flags : Flags
no_flags = record { unshare = []; setns = [] }

-- `open(path, O_RDONLY)` and `setns(fd, flag)`.
pub record Kernel : Type 0 where
  pub opens_namespace : Text → Bool
  pub joins_namespace : Text × Flag → Bool

unfoldable pub update_flags : Kernel → Flag → Text → Step Flags
update_flags kernel flag [] f = (record f { unshare = f.unshare ++ flag ∷ [] }, true)
update_flags kernel flag (c ∷ path) f =
    if kernel.opens_namespace (c ∷ path)
    then (record f { setns = f.setns ++ (c ∷ path, flag) ∷ [] }, true)
    else (f, false)

-- The switch: the flag of a type, if there is one.
unfoldable pub flag_of : Text → Option Flag
flag_of type =
    if first type == b'c'
    then (if text_eq type (codes "cgroup") then some newcgroup else none)
    else if first type == b'i'
    then (if text_eq type (codes "ipc") then some newipc else none)
    else if first type == b'm'
    then (if text_eq type (codes "mount") then some newns else none)
    else if first type == b'n'
    then (if text_eq type (codes "network") then some newnet else none)
    else if first type == b'p'
    then (if text_eq type (codes "pid") then some newpid else none)
    else if first type == b't'
    then (if text_eq type (codes "time") then some newtime else none)
    else if first type == b'u'
    then (if text_eq type (codes "uts")
        then some newuts
        else if text_eq type (codes "user")
        then some newuser
        else none)
    else none

abbrev pub update_if : Kernel → Option Flag → Text → Step Flags
update_if kernel none path f = (f, true)
update_if kernel (some flag) path f = update_flags kernel flag path f

unfoldable pub add_namespace : Kernel → NamespaceDesc → Step Flags
unfolding update_flags flag_of
add_namespace kernel desc = update_if kernel (flag_of desc.type) desc.path

-- The loop with `SetNsFailed`: each namespace is tried, and whether none failed.
unfoldable pub join_all : Kernel → List (Text × Flag) → Bool
join_all kernel [] = true
join_all kernel (x ∷ xs) = let rest = join_all kernel xs in kernel.joins_namespace x && rest

abbrev pub joined : Kernel → Flags × Bool → Bool
joined kernel (f, true) = join_all kernel f.setns
joined kernel (f, false) = false

unfoldable pub enter_namespaces : Kernel → List NamespaceDesc → Bool
unfolding add_namespace join_all
enter_namespaces kernel descs = joined kernel (each (add_namespace kernel) descs no_flags)

-- What is asked of the kernel for one namespace: nothing, if it has no known type or no path.
abbrev pub wanted : Kernel → Option Flag → Text → Bool
wanted kernel none path = true
wanted kernel (some flag) [] = true
wanted kernel (some flag) (c ∷ path) =
    kernel.opens_namespace (c ∷ path) && kernel.joins_namespace (c ∷ path, flag)

abbrev pub all_wanted : Kernel → List NamespaceDesc → Bool
all_wanted kernel [] = true
all_wanted kernel (d ∷ ds) = wanted kernel (flag_of d.type) d.path && all_wanted kernel ds

join_all-append :
    (kernel : Kernel) (xs : List (Text × Flag)) (x : Text × Flag)
    → join_all kernel (xs ++ x ∷ []) ≡ (join_all kernel xs && kernel.joins_namespace x)
unfolding join_all
join_all-append kernel [] x = ground arith
join_all-append kernel (y ∷ xs) x = ground (arith, join_all-append kernel xs x)

add_namespace-joined :
    (kernel : Kernel) (o : Option Flag) (path : Text) (f : Flags)
    → joined kernel (update_if kernel o path f) ≡ (join_all kernel f.setns && wanted kernel o path)
unfolding update_flags
add_namespace-joined kernel none path f = ground arith
add_namespace-joined kernel (some flag) [] f = ground arith
add_namespace-joined kernel (some flag) (c ∷ path) f =
    ground (arith, join_all-append kernel f.setns (c ∷ path, flag))

joined-next :
    (kernel : Kernel) (r : Flags × Bool) (ds : List NamespaceDesc)
    → ((f : Flags)
        → joined kernel (each (add_namespace kernel) ds f)
          ≡ (join_all kernel f.setns && all_wanted kernel ds))
    → joined kernel (next r (each (add_namespace kernel) ds))
      ≡ (joined kernel r && all_wanted kernel ds)
joined-next kernel (f, true) ds h = h f
joined-next kernel (f, false) ds h = refl

joined-each :
    (kernel : Kernel) (ds : List NamespaceDesc) (f : Flags)
    → joined kernel (each (add_namespace kernel) ds f)
      ≡ (join_all kernel f.setns && all_wanted kernel ds)
unfolding each add_namespace
joined-each kernel [] f = ground arith
joined-each kernel (d ∷ ds) f =
    joined-next kernel (add_namespace kernel d f) ds (joined-each kernel ds)
    ∙ ground (arith, add_namespace-joined kernel (flag_of d.type) d.path f)

-- The container gets past its namespaces exactly if each namespace with a known type and a path can be
-- opened and joined; one without a path or of another type is never in the way.
pub enter_namespaces_lem :
    (kernel : Kernel) (ds : List NamespaceDesc) → enter_namespaces kernel ds ≡ all_wanted kernel ds
unfolding enter_namespaces join_all
enter_namespaces_lem kernel ds = joined-each kernel ds no_flags
