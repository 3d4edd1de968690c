-- ===== src/Bundle/Preserved.antt =====
-- The walk through Bundle::load of src/bundle.cpp, loop by loop, for a predicate that each write keeps.
use runw.Common.{Option, none, some, Text, List}
use runw.Json.{Simdjson, ◌>>=◌}
use runw.Loader.{each}
use runw.Loader.Keeps.{Keeps, Keeps-fail, Keeps-with_value, Keeps-each, keeps_rules}
use runw.Bundle.{Bundle, MountDesc, NamespaceDesc, empty_mount, empty_namespace}
use runw.Bundle.Root.{push_mount, load_mount_field, load_mount, load_mounts}
use runw.Bundle.Linux.{
  push_namespace, load_namespace_field, load_namespace, load_linux_field, load_linux,
}
use runw.Bundle.Load.{load_field, load_config, load}
use runw.Bundle.Stable.{Stable}
use runw.Bundle.Loops.{
  description-Keeps, uid_mapping-Keeps, gid_mapping-Keeps, device-Keeps, resources-Keeps,
  annotation-Keeps, process-Keeps, root-Keeps,
}

module _ (S : Simdjson) {P : Bundle → Type 0} (st : Stable S P)
    (add_namespace : (v : NamespaceDesc) (b : Bundle) → P b → P (push_namespace v b)) where
  namespace-Keeps : (x : S.Element) → Keeps P (load_namespace S x)
  unfolding load_namespace
  namespace-Keeps =
      description-Keeps S st {Q = λ _. Unit {0}} push_namespace (load_namespace_field S)
        empty_namespace tt (λ x. record { at = λ s _. tt }) (λ d b _. add_namespace d b)

  linux_field-Keeps : (x : Text × S.Element) → Keeps P (load_linux_field S x)
  unfolding load_linux_field
  linux_field-Keeps x =
      search
        (
          keeps_rules,
          namespace-Keeps,
          uid_mapping-Keeps S st,
          gid_mapping-Keeps S st,
          device-Keeps S st,
          resources-Keeps S st,
          st.set_cgroups_path,
        )
        depth 20

  pub linux-Keeps : (o : List (Text × S.Element)) → Keeps P (load_linux S o)
  unfolding load_linux
  linux-Keeps o = search (keeps_rules, linux_field-Keeps) depth 6

module _ (S : Simdjson) {P : Bundle → Type 0} (st : Stable S P)
    (add_mount : (v : MountDesc) (b : Bundle) → P b → P (push_mount v b)) where
  mount-Keeps : (x : S.Element) → Keeps P (load_mount S x)
  unfolding load_mount
  mount-Keeps =
      description-Keeps S st {Q = λ _. Unit {0}} push_mount (load_mount_field S) empty_mount tt
        (λ x. record { at = λ s _. tt }) (λ d b _. add_mount d b)

  pub mounts-Keeps : (xs : List S.Element) → Keeps P (load_mounts S xs)
  unfolding load_mounts
  mounts-Keeps xs = search (keeps_rules, mount-Keeps) depth 6

module _ (S : Simdjson) {P : Bundle → Type 0} (st : Stable S P)
    (add_namespace : (v : NamespaceDesc) (b : Bundle) → P b → P (push_namespace v b))
    (add_mount : (v : MountDesc) (b : Bundle) → P b → P (push_mount v b)) where
  field-Keeps : (x : Text × S.Element) → Keeps P (load_field S x)
  unfolding load_field
  field-Keeps x =
      search
        (
          keeps_rules,
          mounts-Keeps,
          annotation-Keeps S st,
          process-Keeps S st,
          root-Keeps S st,
          linux-Keeps S st add_namespace,
          st.set_oci_version,
        )
        depth 16

  -- Loading keeps every such predicate, on success and on failure.
  pub load-Keeps : (file : Option Text) → Keeps P (load S file)
  unfolding load load_config
  load-Keeps none = Keeps-fail
  load-Keeps (some text) = record {
    at = λ b h.
        (Keeps-with_value (S.parse text >>= S.get_object) (each (load_field S))
            (λ o _. Keeps-each _ o field-Keeps)).at
          b h;
  }
