-- ===== src/Bundle/Loops.antt =====
-- The loops of src/bundle.cpp below that over the configuration, and a predicate that each of their
-- writes keeps; those that push mounts and namespaces are in Preserved.
use runw.Common.{Bool, true, false, Text, List, arith}
use runw.Json.{Simdjson, Result, ok, err, no_such_field, number_out_of_range, other}
use runw.Loader.{Step, each, with_value}
use runw.Loader.Keeps.{Keeps, Keeps-fail, Keeps-skip, Keeps-with_value, Keeps-each, keeps_rules}
use runw.Bundle.{Bundle, empty_mapping, empty_device}
use runw.Bundle.Process.{
  load_strings, load_console_field, load_capability_names, load_capabilities, load_limit,
  load_user_field, load_process_c, load_process_field, load_process,
}
use runw.Bundle.Root.{pushed, load_root_field, load_root}
use runw.Bundle.Linux.{
  push_uid_mapping, push_device, load_mapping_field, load_uid_mapping, load_gid_mapping,
  load_device_field, load_device, load_memory_field, load_resources_field,
}
use runw.Bundle.Load.{load_annotation}
use runw.Bundle.Stable.{
  MappingFits, DeviceFits, Stable, member-Wide, zero-Wide, get_uint-FitsUint, get_int-FitsInt,
  mapping_field-Keeps, device_field-Keeps,
}

module _ (S : Simdjson) {P : Bundle → Type 0} (st : Stable S P) where
  strings-Keeps :
      (push : Text → Bundle → Bundle) (e : S.Element)
      → ((v : Text) (b : Bundle) → P b → P (push v b))
      → Keeps P (load_strings S push e)
  unfolding load_strings
  strings-Keeps push e h = search (keeps_rules) depth 8

  console-Keeps : (x : Text × S.Element) → Keeps P (load_console_field S x)
  unfolding load_console_field
  console-Keeps x =
      search (keeps_rules, st.set_console_height, st.set_console_width, get_uint-FitsUint) depth 10

  capability-Keeps :
      (push : Text → Bundle → Bundle) (r : Result S.Element)
      → ((v : Text) (b : Bundle) → P b → P (push v b))
      → Keeps P (load_capability_names S push r)
  unfolding load_capability_names
  capability-Keeps push (ok e) h = strings-Keeps push e h
  capability-Keeps push (err no_such_field) h = Keeps-skip
  capability-Keeps push (err number_out_of_range) h = Keeps-fail
  capability-Keeps push (err (other n)) h = Keeps-fail

  capabilities-Keeps : (o : List (Text × S.Element)) → Keeps P (load_capabilities S o)
  unfolding load_capabilities
  capabilities-Keeps o =
      search
        (
          keeps_rules, capability-Keeps, st.add_effective, st.add_bounding, st.add_inheritable,
          st.add_permitted, st.add_ambient,
        )
        depth 10

  limit-Keeps : (x : S.Element) → Keeps P (load_limit S x)
  unfolding load_limit
  limit-Keeps x = search (keeps_rules, st.add_limit, member-Wide) depth 12

  user-Keeps : (x : Text × S.Element) → Keeps P (load_user_field S x)
  unfolding load_user_field
  user-Keeps x =
      search (keeps_rules, st.set_uid, st.set_u_mask, st.set_gid, st.add_gid, get_int-FitsInt) depth
        16

  process_c-Keeps : (key : Text) (e : S.Element) → Keeps P (load_process_c S key e)
  unfolding load_process_c
  process_c-Keeps key e =
      search (keeps_rules, console-Keeps, capabilities-Keeps, st.set_cwd) depth 12

  process_field-Keeps :
      (o : List (Text × S.Element)) (x : Text × S.Element) → Keeps P (load_process_field S o x)
  unfolding load_process_field
  process_field-Keeps o x =
      search
        (
          keeps_rules, strings-Keeps, process_c-Keeps, limit-Keeps, user-Keeps, get_int-FitsInt,
          st.add_arg, st.add_env, st.set_no_new_privileges, st.set_oom_score_adj, st.set_terminal,
        )
        depth 20

  pub process-Keeps : (o : List (Text × S.Element)) → Keeps P (load_process S o)
  unfolding load_process
  process-Keeps o = search (keeps_rules, process_field-Keeps) depth 6

  root_field-Keeps : (x : Text × S.Element) → Keeps P (load_root_field S x)
  unfolding load_root_field
  root_field-Keeps x = search (keeps_rules, st.set_root_path, st.set_root_readonly) depth 10

  pub root-Keeps : (o : List (Text × S.Element)) → Keeps P (load_root S o)
  unfolding load_root
  root-Keeps o = search (keeps_rules, root_field-Keeps) depth 6

  pushed-Keeps :
      {D : Type 0} {Q : D → Type 0} (push : D → Bundle → Bundle) (r : D × Bool)
      → Q r.0
      → ((d : D) (b : Bundle) → Q d → P b → P (push d b))
      → Keeps P (pushed push r)
  pushed-Keeps push (d, true) q h = record { at = λ b p. h d b q p }
  pushed-Keeps push (d, false) q h = Keeps-fail

  -- A description that keeps `Q` while it is filled, and is then pushed.
  pub description-Keeps :
      {D : Type 0} {Q : D → Type 0} (push : D → Bundle → Bundle) (f : Text × S.Element → Step D)
      (d : D)
      → Q d
      → ((x : Text × S.Element) → Keeps Q (f x))
      → ((d' : D) (b : Bundle) → Q d' → P b → P (push d' b))
      → (x : S.Element) → Keeps P (with_value (S.get_object x) λ o. pushed push (each f o d))
  description-Keeps push f d q k h x =
      Keeps-with_value (S.get_object x) _
        λ o _. pushed-Keeps push (each f o d) ((Keeps-each f o k).at d q) h

  mapping-Keeps :
      (x : S.Element)
      → Keeps P (
          with_value
            (S.get_object x)
            λ o. pushed push_uid_mapping (each (load_mapping_field S) o empty_mapping))
  mapping-Keeps =
      description-Keeps {Q = MappingFits} push_uid_mapping (load_mapping_field S) empty_mapping
        (omega arith) (mapping_field-Keeps S) st.add_uid_mapping

  pub uid_mapping-Keeps : (x : S.Element) → Keeps P (load_uid_mapping S x)
  unfolding load_uid_mapping
  uid_mapping-Keeps = mapping-Keeps

  pub gid_mapping-Keeps : (x : S.Element) → Keeps P (load_gid_mapping S x)
  unfolding load_gid_mapping
  gid_mapping-Keeps = mapping-Keeps

  pub device-Keeps : (x : S.Element) → Keeps P (load_device S x)
  unfolding load_device
  device-Keeps =
      description-Keeps {Q = DeviceFits S} push_device (load_device_field S) empty_device
        (omega arith, omega arith, omega arith, zero-Wide S, zero-Wide S) (device_field-Keeps S)
        st.add_device

  memory-Keeps : (x : Text × S.Element) → Keeps P (load_memory_field S x)
  unfolding load_memory_field
  memory-Keeps x =
      search
        (
          keeps_rules, st.set_resources_memory_limit, st.set_resources_memory_reservation,
          get_uint-FitsUint,
        )
        depth 10

  pub resources-Keeps : (x : Text × S.Element) → Keeps P (load_resources_field S x)
  unfolding load_resources_field
  resources-Keeps x = search (keeps_rules, memory-Keeps) depth 10

  pub annotation-Keeps : (x : Text × S.Element) → Keeps P (load_annotation S x)
  unfolding load_annotation
  annotation-Keeps x = search (keeps_rules, strings-Keeps, st.add_cmd) depth 8
