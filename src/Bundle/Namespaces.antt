-- ===== src/Bundle/Namespaces.antt =====
-- The namespaces that Bundle::load of src/bundle.cpp collects.
use runw.Common.{
  ◌≡◌, refl, true, false, some, List, [], ◌∷◌, ◌++◌, Text, codes, text_eq, if◌then◌else◌,
  Bool-cases, inl, inr, arith,
}
use runw.Json.{Simdjson, ◌>>=◌}
use runw.Loader.Keeps.{Keeps, keeps_rules}
use runw.Loader.Adds.{Adds, Adds-with_value, Adds-each, collect, from_ok}
use runw.Loader.Does.{value_or, Does, folded, Does-assign, Does-with_value}
use runw.Bundle.{Bundle, NamespaceDesc, empty_namespace}
use runw.Bundle.Linux.{
  push_namespace, load_namespace_field, load_namespace, load_linux_field, load_linux,
}
use runw.Bundle.Entries.{at_key, description-Adds, keyed-Adds}
use runw.Bundle.Load.{load_field, load_config, load}
use runw.Bundle.Stable.{Stable}
use runw.Bundle.Loops.{
  annotation-Keeps, process-Keeps, root-Keeps, uid_mapping-Keeps, gid_mapping-Keeps, device-Keeps,
  resources-Keeps,
}
use runw.Bundle.Preserved.{mounts-Keeps}

module _ (S : Simdjson) where
  -- A description with one entry more, by the key: later entries win.
  abbrev pub named_by : Text × S.Element → NamespaceDesc → NamespaceDesc
  named_by (key, e) d =
      if text_eq key (codes "type")
      then record d { type = value_or (S.get_string e) d.type }
      else if text_eq key (codes "path")
      then record d { path = value_or (S.get_string e) d.path }
      else d

  -- What an element of a "namespaces" array describes, and what an entry of a "linux" object, an entry
  -- of a configuration and a configuration do.
  abbrev pub namespace_of : S.Element → List NamespaceDesc
  namespace_of x = from_ok (S.get_object x) λ o. folded named_by o empty_namespace ∷ []

  abbrev pub namespaces_in : Text × S.Element → List NamespaceDesc
  namespaces_in (key, e) =
      if text_eq key (codes "namespaces")
      then from_ok (S.get_array e) (collect namespace_of)
      else []

  abbrev pub namespaces_at : Text × S.Element → List NamespaceDesc
  namespaces_at (key, e) =
      if text_eq key (codes "linux") then from_ok (S.get_object e) (collect namespaces_in) else []

  abbrev pub namespaces_of : List (Text × S.Element) → List NamespaceDesc
  namespaces_of config = collect namespaces_at config

  FieldDoes : Text → S.Element → Type 0
  FieldDoes key e = Does (load_namespace_field S (key, e)) (named_by (key, e))

  type-Does : (e : S.Element) → FieldDoes (codes "type") e
  unfolding FieldDoes load_namespace_field text_eq
  type-Does e =
      Does-with_value (S.get_string e) _ (λ r d. record d { type = value_or r d.type })
        λ v. Does-assign _

  path-Does : (e : S.Element) → FieldDoes (codes "path") e
  unfolding FieldDoes load_namespace_field text_eq
  path-Does e =
      Does-with_value (S.get_string e) _ (λ r d. record d { path = value_or r d.path })
        λ v. Does-assign _

  other-Does :
      (key : Text) (e : S.Element)
      → text_eq key (codes "type") ≡ false
      → text_eq key (codes "path") ≡ false
      → FieldDoes key e
  unfolding FieldDoes load_namespace_field
  other-Does key e t p = record { at = λ b h. ground arith }

  field-Does : (x : Text × S.Element) → Does (load_namespace_field S x) (named_by x)
  unfolding FieldDoes
  field-Does (key, e) = elim (Bool-cases (text_eq key (codes "type"))) [
    | inl t ↦ at_key (λ k. FieldDoes k e) key (codes "type") t (type-Does e)
    | inr t ↦ elim (Bool-cases (text_eq key (codes "path"))) [
      | inl p ↦ at_key (λ k. FieldDoes k e) key (codes "path") p (path-Does e)
      | inr p ↦ other-Does key e t p
    ]
  ]

  namespace-Adds : (x : S.Element) → Adds (λ b. b.namespaces) (load_namespace S x) (namespace_of x)
  unfolding load_namespace
  namespace-Adds =
      description-Adds (λ b. b.namespaces) push_namespace (λ d b. refl) S (load_namespace_field S)
        named_by empty_namespace field-Does

abbrev SameNamespaces : List NamespaceDesc → Bundle → Type 0
SameNamespaces l b = b.namespaces ≡ l

SameNamespaces-Stable : (S : Simdjson) (l : List NamespaceDesc) → Stable S (SameNamespaces l)
SameNamespaces-Stable S l = record {
  set_oci_version = λ v b i. i;
  set_terminal = λ v b i. i;
  set_console_width = λ v b _ i. i;
  set_console_height = λ v b _ i. i;
  set_cwd = λ v b i. i;
  set_no_new_privileges = λ v b i. i;
  set_oom_score_adj = λ v b _ i. i;
  set_uid = λ v b _ i. i;
  set_gid = λ v b _ i. i;
  set_u_mask = λ v b _ i. i;
  set_root_path = λ v b i. i;
  set_root_readonly = λ v b i. i;
  set_cgroups_path = λ v b i. i;
  set_resources_memory_limit = λ v b _ i. i;
  set_resources_memory_reservation = λ v b _ i. i;
  add_arg = λ v b i. i;
  add_env = λ v b i. i;
  add_cmd = λ v b i. i;
  add_effective = λ v b i. i;
  add_bounding = λ v b i. i;
  add_inheritable = λ v b i. i;
  add_permitted = λ v b i. i;
  add_ambient = λ v b i. i;
  add_gid = λ v b _ i. i;
  add_uid_mapping = λ v b _ i. i;
  add_device = λ v b _ i. i;
  add_limit = λ t s h b _ _ i. i;
}

module _ (S : Simdjson) where
  other_linux-Keeps :
      (key : Text) (e : S.Element) (l : List NamespaceDesc)
      → text_eq key (codes "namespaces") ≡ false
      → Keeps (SameNamespaces l) (load_linux_field S (key, e))
  unfolding load_linux_field
  other_linux-Keeps key e l n = rw n (
      let st = SameNamespaces-Stable S l in
      search
        (
          keeps_rules,
          uid_mapping-Keeps S st,
          gid_mapping-Keeps S st,
          device-Keeps S st,
          resources-Keeps S st,
          st.set_cgroups_path,
        )
        depth 20)

  other_field-Keeps :
      (key : Text) (e : S.Element) (l : List NamespaceDesc)
      → text_eq key (codes "linux") ≡ false
      → Keeps (SameNamespaces l) (load_field S (key, e))
  unfolding load_field
  other_field-Keeps key e l n = rw n (
      let st = SameNamespaces-Stable S l in
      search
        (
          keeps_rules,
          annotation-Keeps S st,
          process-Keeps S st,
          root-Keeps S st,
          mounts-Keeps S st (λ v b i. i),
          st.set_oci_version,
        )
        depth 16)

  namespaces_entry-Adds :
      (e : S.Element)
      → Adds
          (λ b. b.namespaces)
          (load_linux_field S (codes "namespaces", e))
          (from_ok (S.get_array e) (collect (namespace_of S)))
  unfolding load_linux_field text_eq
  namespaces_entry-Adds e =
      Adds-with_value (S.get_array e) _ (collect (namespace_of S))
        λ xs. Adds-each (load_namespace S) (namespace_of S) xs (namespace-Adds S)

  linux_field-Adds :
      (x : Text × S.Element) → Adds (λ b. b.namespaces) (load_linux_field S x) (namespaces_in S x)
  linux_field-Adds (key, e) =
      keyed-Adds (λ b. b.namespaces) (load_linux_field S)
        (λ e. from_ok (S.get_array e) (collect (namespace_of S))) (codes "namespaces") key e
        (namespaces_entry-Adds e) (λ n l. other_linux-Keeps key e l n)

  linux_entry-Adds :
      (e : S.Element)
      → Adds
          (λ b. b.namespaces)
          (load_field S (codes "linux", e))
          (from_ok (S.get_object e) (collect (namespaces_in S)))
  unfolding load_field load_linux text_eq
  linux_entry-Adds e =
      Adds-with_value (S.get_object e) _ (collect (namespaces_in S))
        λ o. Adds-each (load_linux_field S) (namespaces_in S) o linux_field-Adds

  field-Adds :
      (x : Text × S.Element) → Adds (λ b. b.namespaces) (load_field S x) (namespaces_at S x)
  field-Adds (key, e) =
      keyed-Adds (λ b. b.namespaces) (load_field S)
        (λ e. from_ok (S.get_object e) (collect (namespaces_in S))) (codes "linux") key e
        (linux_entry-Adds e) (λ n l. other_field-Keeps key e l n)

  pub load-namespaces_of :
      (text : Text) (b : Bundle)
      → (load S (some text) b).1 ≡ true
      → (load S (some text) b).0.namespaces
        ≡ b.namespaces ++ from_ok (S.parse text >>= S.get_object) (namespaces_of S)
  unfolding load load_config
  load-namespaces_of text =
      (Adds-with_value (S.parse text >>= S.get_object) _ (namespaces_of S)
        λ o. Adds-each (load_field S) (namespaces_at S) o field-Adds).at
