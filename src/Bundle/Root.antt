-- ===== src/Bundle/Root.antt =====
-- `loadRoot` and `loadMounts` of src/bundle.cpp: the "root" object and the "mounts" array.
use runw.Common.{◌==◌, Bool, true, false, List, [], ◌∷◌, ◌++◌, Text, codes, text_eq, if◌then◌else◌}
use runw.Json.{Simdjson}
use runw.Loader.{Step, skip, assign, when, with_value, each, first}
use runw.Bundle.{Bundle, MountDesc, empty_mount}

abbrev pub push_option : Text → MountDesc → MountDesc
push_option v d = record d { options = d.options ++ v ∷ [] }

abbrev pub push_mount : MountDesc → Bundle → Bundle
push_mount d b = record b { mounts = b.mounts ++ d ∷ [] }

-- A description is built beside the bundle, and pushed when all its fields were read.
abbrev pub pushed {ℓ κ} : {S : Type ℓ} {D : Type κ} → (D → S → S) → D × Bool → Step S
pushed push (d, true) s = (push d s, true)
pushed push (d, false) s = (s, false)

module _ (S : Simdjson) where
  open S use {Element, get_string, get_bool, get_array, get_object}

  unfoldable pub load_root_field : Text × Element → Step Bundle
  load_root_field (key, e) =
      if first key == b'p'
      then when (text_eq key (codes "path"))
          (with_value (get_string e) λ v. assign λ b. record b { root_path = v })
      else if first key == b'r'
      then when (text_eq key (codes "readonly"))
          (with_value (get_bool e) λ v. assign λ b. record b { root_readonly = v })
      else skip

  unfoldable pub load_root : List (Text × Element) → Step Bundle
  load_root root = each load_root_field root

  unfoldable pub load_mount_field : Text × Element → Step MountDesc
  load_mount_field (key, e) =
      if first key == b'd'
      then when (text_eq key (codes "destination"))
          (with_value (get_string e) λ v. assign λ d. record d { destination = v })
      else if first key == b'o'
      then when (text_eq key (codes "options")) (
          with_value (get_array e)
            (each λ x. with_value (get_string x) λ v. assign (push_option v)))
      else if first key == b's'
      then when (text_eq key (codes "source"))
          (with_value (get_string e) λ v. assign λ d. record d { source = v })
      else if first key == b't'
      then when (text_eq key (codes "type"))
          (with_value (get_string e) λ v. assign λ d. record d { type = v })
      else skip

  unfoldable pub load_mount : Element → Step Bundle
  load_mount x =
      with_value (get_object x) λ o. pushed push_mount (each load_mount_field o empty_mount)

  unfoldable pub load_mounts : List Element → Step Bundle
  load_mounts mounts = each load_mount mounts
