-- ===== src/Examples/BundleRuns.antt =====
-- A configuration with most kinds of entry, and the theorems on loading at it.
use runw.Common.{negsuc, ◌⊎◌, none, ◌≡◌, refl, pos, true, some, [], ◌∷◌, ◌++◌, codes, text_eq}
use runw.Loader.{each, get_int, get_uint}
use runw.Json.{Simdjson, ok, ◌>>=◌}
use runw.Json.Tree.{Tree, nil, cons, Fields, end, field, fields, tree_dom, tree_dom-IsLawful}
use runw.Bundle.{Bundle, empty_bundle}
use runw.Bundle.Load.{load, load_config, load_field}
use runw.Bundle.Process.{
  load_limit, load_process, load_process_field, load_process_c, load_user_field, load_strings,
}
use runw.Bundle.Linux.{
  load_device, load_device_field, load_namespace, load_namespace_field, load_linux,
  load_linux_field, load_uid_mapping, load_gid_mapping, load_mapping_field,
}
use runw.Loader.Adds.{from_ok}
use runw.Loader.Does.{folded}
use runw.Bundle.Root.{load_mounts, load_mount, load_mount_field}
use runw.Bundle.Mounts.{mounts_of}
use runw.Bundle.Namespaces.{namespaces_of}
use runw.Bundle.Collected.{load-collected}
use runw.Bundle.Range.{InRange, empty-InRange, load-InRange}
use runw.Bundle.Unwritten.{Unwritten, load-Unwritten}
use runw.Bundle.Keys.{unknown_ignored, switches-by_key, config_by_key, process_by_key, linux_by_key}
use runw.Command.Engine.{Engine, Serves, engine, set_up, set_up-Serves}
use runw.FilePath.{join}

abbrev mapping : Tree
mapping = Tree.obj (
    field (codes "containerID") (Tree.int (pos 0))
      (field (codes "hostID") (Tree.int (pos 1000)) (field (codes "size") (Tree.int (pos 1)) end)))

abbrev device : Tree
device =
    Tree.obj
      (field (codes "major") (Tree.int (pos 1)) (field (codes "minor") (Tree.int (negsuc 0)) end))

abbrev limit : Tree
limit = Tree.obj (
    field (codes "type") (Tree.str (codes "RLIMIT_NOFILE"))
      (field (codes "soft") (Tree.int (pos 1024)) (field (codes "hard") (Tree.int (pos 4096)) end)))

abbrev linux_entries : Fields
linux_entries = field (codes "devices") (Tree.arr (cons device nil)) (
    field (codes "uidMappings") (Tree.arr (cons mapping nil)) (
      field (codes "gidMappings") (Tree.arr (cons mapping nil))
        (field (codes "cgroupsPath") (Tree.str (codes "s:p:n")) end)))

abbrev process_entries : Fields
process_entries = field (codes "rlimits") (Tree.arr (cons limit nil)) (
    field (codes "terminal") (Tree.bool true) (
      field (codes "user") (Tree.obj (field (codes "uid") (Tree.int (pos 1000)) end)) (
        field (codes "args") (Tree.arr (cons (Tree.str (codes "a.wasm")) nil))
          (field (codes "cwd") (Tree.str (codes "/")) end))))

abbrev config : Fields
config = field (codes "ociVersion") (Tree.str (codes "1.0.2")) (
    field (codes "process") (Tree.obj process_entries)
      (field (codes "linux") (Tree.obj linux_entries) end))

abbrev sample : Simdjson
sample = tree_dom (λ _. ok (Tree.obj config))

-- Both kinds of mapping land in one list.
config_loads :
    let (b, done) = load sample (some []) empty_bundle in
    (done ≡ true)
    × (b.args ≡ codes "a.wasm" ∷ [])
    × (b.uid ≡ pos 1000)
    × (b.r_limits ≡ (codes "RLIMIT_NOFILE", pos 1024, pos 4096) ∷ [])
    × (b.gid_mappings ≡ [])
unfolding load load_config load_field load_process load_process_field load_process_c load_user_field
    load_strings load_linux load_linux_field load_uid_mapping load_gid_mapping load_mapping_field
    load_limit load_device load_device_field each get_int get_uint text_eq
config_loads = (refl, refl, refl, refl, refl)

load-InRange_example : InRange (load sample (some []) empty_bundle).0
load-InRange_example =
    load-InRange sample (tree_dom-IsLawful _) (some []) empty_bundle empty-InRange

load-Unwritten_example : Unwritten empty_bundle (load sample (some []) empty_bundle).0
load-Unwritten_example = load-Unwritten sample (some []) empty_bundle

switches-by_key_example :
    (load_field sample (codes "process", Tree.obj process_entries) empty_bundle
      ≡ config_by_key sample (codes "process") (Tree.obj process_entries) empty_bundle)
    × (load_process_field sample [] (codes "process", Tree.obj process_entries) empty_bundle
        ≡ process_by_key sample [] (codes "process") (Tree.obj process_entries) empty_bundle)
    × (load_linux_field sample (codes "process", Tree.obj process_entries) empty_bundle
        ≡ linux_by_key sample (codes "process") (Tree.obj process_entries) empty_bundle)
switches-by_key_example =
    switches-by_key sample [] (codes "process") (Tree.obj process_entries) empty_bundle

unknown_ignored_example :
    (load_config sample (fields config ++ (codes "hooks", Tree.null) ∷ []) empty_bundle
      ≡ load_config sample (fields config ++ []) empty_bundle)
    × (load_linux sample (fields config ++ (codes "sysctl", Tree.null) ∷ []) empty_bundle
        ≡ load_linux sample (fields config ++ []) empty_bundle)
unfolding text_eq
unknown_ignored_example =
    unknown_ignored sample (fields config) [] (codes "hooks") (codes "sysctl") Tree.null
      empty_bundle refl refl

-- The command line of a bundle with two args.
abbrev hello : Bundle
hello = record empty_bundle {
  args = codes "/hello.wasm" ∷ codes "-v" ∷ [];
  root_path = codes "/b/rootfs";
  cwd = codes "/app";
}

set_up-Serves_example :
    ((hello.args ≡ []) × (set_up hello ≡ none))
    ⊎ ((e : Engine) × (set_up hello ≡ some e) × Serves hello e)
set_up-Serves_example = set_up-Serves hello

-- An absolute path leaves the root.
module_of_hello : (engine hello (codes "/hello.wasm") []).module_path ≡ codes "/hello.wasm"
unfolding join
module_of_hello = refl

-- A mount whose destination is given twice.
abbrev mount : Tree
mount = Tree.obj (
    field (codes "destination") (Tree.str (codes "/a")) (
      field (codes "options") (Tree.arr (cons (Tree.str (codes "ro")) nil))
        (field (codes "destination") (Tree.str (codes "/b")) end)))

abbrev namespace : Tree
namespace = Tree.obj (
    field (codes "type") (Tree.str (codes "network"))
      (field (codes "path") (Tree.str (codes "/n")) end))

abbrev linux : Tree
linux = Tree.obj (field (codes "namespaces") (Tree.arr (cons namespace nil)) linux_entries)

abbrev mounting_config : Fields
mounting_config =
    field (codes "mounts") (Tree.arr (cons mount nil)) (field (codes "linux") linux end)

abbrev mounting : Simdjson
mounting = tree_dom λ _. ok (Tree.obj mounting_config)

mounting_loads : (load mounting (some []) empty_bundle).1 ≡ true
unfolding load load_config load_field load_process load_process_field load_process_c load_user_field
    load_strings load_linux load_linux_field load_uid_mapping load_gid_mapping load_mapping_field
    load_limit load_device load_device_field load_mounts load_mount load_mount_field load_namespace
    load_namespace_field each get_int get_uint text_eq
mounting_loads = refl

load-collected_example :
    ((load mounting (some []) empty_bundle).0.mounts
      ≡ [] ++ from_ok (mounting.parse [] >>= mounting.get_object) (mounts_of mounting))
    × ((load mounting (some []) empty_bundle).0.namespaces
        ≡ [] ++ from_ok (mounting.parse [] >>= mounting.get_object) (namespaces_of mounting))
load-collected_example = load-collected mounting [] empty_bundle mounting_loads

one_of_each :
    (mounts_of mounting (fields mounting_config)
      ≡ record { destination = codes "/b"; source = []; type = []; options = codes "ro" ∷ [] } ∷ [])
    × (namespaces_of mounting (fields mounting_config)
        ≡ record { type = codes "network"; path = codes "/n" } ∷ [])
unfolding text_eq folded
one_of_each = (refl, refl)
