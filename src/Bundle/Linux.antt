-- ===== src/Bundle/Linux.antt =====
-- `loadLinux` of src/bundle.cpp: the "linux" object of the configuration.
use runw.Common.{◌==◌, List, [], ◌∷◌, ◌++◌, Text, codes, text_eq, if◌then◌else◌}
use runw.Json.{Simdjson}
use runw.Loader.{Step, skip, assign, when, with_value, each, first, get_uint}
use runw.Bundle.{
  Bundle, NamespaceDesc, IdMappingDesc, DeviceDesc, empty_namespace, empty_mapping, empty_device,
}
use runw.Bundle.Root.{pushed}

abbrev pub push_namespace : NamespaceDesc → Bundle → Bundle
push_namespace d b = record b { namespaces = b.namespaces ++ d ∷ [] }

abbrev pub push_uid_mapping : IdMappingDesc → Bundle → Bundle
push_uid_mapping d b = record b { uid_mappings = b.uid_mappings ++ d ∷ [] }

abbrev pub push_device : DeviceDesc → Bundle → Bundle
push_device d b = record b { devices = b.devices ++ d ∷ [] }

module _ (S : Simdjson) where
  open S use {Element, get_string, get_int64, get_array, get_object}

  unfoldable pub load_namespace_field : Text × Element → Step NamespaceDesc
  load_namespace_field (key, e) =
      if first key == b'p'
      then when (text_eq key (codes "path"))
          (with_value (get_string e) λ v. assign λ d. record d { path = v })
      else if first key == b't'
      then when (text_eq key (codes "type"))
          (with_value (get_string e) λ v. assign λ d. record d { type = v })
      else skip

  unfoldable pub load_namespace : Element → Step Bundle
  load_namespace x =
      with_value (get_object x)
        λ o. pushed push_namespace (each load_namespace_field o empty_namespace)

  unfoldable pub load_mapping_field : Text × Element → Step IdMappingDesc
  load_mapping_field (key, e) =
      if first key == b'c'
      then when (text_eq key (codes "containerID"))
          (with_value (get_uint S 32 e) λ v. assign λ d. record d { container_id = v })
      else if first key == b'h'
      then when (text_eq key (codes "hostID"))
          (with_value (get_uint S 32 e) λ v. assign λ d. record d { host_id = v })
      else if first key == b's'
      then when (text_eq key (codes "size"))
          (with_value (get_uint S 32 e) λ v. assign λ d. record d { size = v })
      else skip

  -- The loop body of "uidMappings", and that of "gidMappings", which is a copy that pushes to the
  -- same member.
  unfoldable pub load_uid_mapping : Element → Step Bundle
  load_uid_mapping x =
      with_value (get_object x)
        λ o. pushed push_uid_mapping (each load_mapping_field o empty_mapping)

  unfoldable pub load_gid_mapping : Element → Step Bundle
  load_gid_mapping x =
      with_value (get_object x)
        λ o. pushed push_uid_mapping (each load_mapping_field o empty_mapping)

  unfoldable pub load_device_field : Text × Element → Step DeviceDesc
  load_device_field (key, e) =
      if first key == b't'
      then when (text_eq key (codes "type"))
          (with_value (get_string e) λ v. assign λ d. record d { type = v })
      else if first key == b'p'
      then when (text_eq key (codes "path"))
          (with_value (get_string e) λ v. assign λ d. record d { path = v })
      else if first key == b'm'
      then (if text_eq key (codes "major")
          then with_value (get_int64 e) (λ v. assign λ d. record d { major = v })
          else when (text_eq key (codes "minor"))
              (with_value (get_int64 e) λ v. assign λ d. record d { minor = v }))
      else if first key == b'f'
      then when (text_eq key (codes "fileMode"))
          (with_value (get_uint S 32 e) λ v. assign λ d. record d { file_mode = v })
      else if first key == b'u'
      then when (text_eq key (codes "uid"))
          (with_value (get_uint S 32 e) λ v. assign λ d. record d { uid = v })
      else if first key == b'g'
      then when (text_eq key (codes "gid"))
          (with_value (get_uint S 32 e) λ v. assign λ d. record d { gid = v })
      else skip

  unfoldable pub load_device : Element → Step Bundle
  load_device x =
      with_value (get_object x) λ o. pushed push_device (each load_device_field o empty_device)

  unfoldable pub load_memory_field : Text × Element → Step Bundle
  load_memory_field (key, e) =
      if first key == b'l'
      then when (text_eq key (codes "limit"))
          (with_value (get_uint S 64 e) λ v. assign λ b. record b { resources_memory_limit = v })
      else if first key == b'r'
      then when (text_eq key (codes "reservation")) (
          with_value (get_uint S 64 e)
            λ v. assign λ b. record b { resources_memory_reservation = v })
      else skip

  -- `loadResources`; the case "devices" is empty.
  unfoldable pub load_resources_field : Text × Element → Step Bundle
  load_resources_field (key, e) =
      if first key == b'm'
      then when (text_eq key (codes "memory")) (with_value (get_object e) (each load_memory_field))
      else skip

  unfoldable pub load_linux_field : Text × Element → Step Bundle
  load_linux_field (key, e) =
      if first key == b'n'
      then when (text_eq key (codes "namespaces")) (with_value (get_array e) (each load_namespace))
      else if first key == b'u'
      then when (text_eq key (codes "uidMappings"))
          (with_value (get_array e) (each load_uid_mapping))
      else if first key == b'g'
      then when (text_eq key (codes "gidMappings"))
          (with_value (get_array e) (each load_gid_mapping))
      else if first key == b'd'
      then when (text_eq key (codes "devices")) (with_value (get_array e) (each load_device))
      else if first key == b'c'
      then when (text_eq key (codes "cgroupsPath"))
          (with_value (get_string e) λ v. assign λ b. record b { cgroups_path = v })
      else if first key == b'r'
      then when (text_eq key (codes "resources"))
          (with_value (get_object e) (each load_resources_field))
      else skip

  unfoldable pub load_linux : List (Text × Element) → Step Bundle
  load_linux linux = each load_linux_field linux
