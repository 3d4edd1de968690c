-- ===== src/Bundle/Stable.antt =====
-- Predicates on the bundle that each write of src/bundle.cpp to a member keeps, with what the code has
-- checked of the value.
use runw.Common.{pos, ℕ, ℤ, ◌≤◌, ◌^◌, ◌-◌, ◌≡◌, ◌≤ℤ◌, int_min, int_max, Bool, Text, arith}
use runw.Json.{Simdjson, IsLawful, Result, ok, err, ◌>>=◌}
use runw.Loader.{get_int, get_uint}
use runw.Loader.Keeps.{Keeps, keeps_rules}
use runw.Bundle.{Bundle, IdMappingDesc, DeviceDesc}
use runw.Bundle.Process.{
  push_arg, push_env, push_effective, push_bounding, push_inheritable, push_permitted, push_ambient,
  push_limit, push_gid,
}
use runw.Bundle.Linux.{push_uid_mapping, push_device, load_mapping_field, load_device_field}
use runw.Bundle.Load.{push_cmd}

abbrev pub FitsInt : ℕ → ℤ → Type 0
FitsInt w v = (int_min w ≤ℤ v) × (v ≤ℤ int_max w)

abbrev pub FitsUint : ℕ → ℕ → Type 0
FitsUint w v = v ≤ 2 ^ w - 1

-- What a lawful parser gives as an int64_t.
unfoldable pub Wide : Simdjson → ℤ → Type 0
Wide S v = IsLawful S → FitsInt 64 v

abbrev pub MappingFits : IdMappingDesc → Type 0
MappingFits d = FitsUint 32 d.container_id × FitsUint 32 d.host_id × FitsUint 32 d.size

abbrev pub DeviceFits : Simdjson → DeviceDesc → Type 0
DeviceFits S d =
    FitsUint 32 d.file_mode
    × FitsUint 32 d.uid
    × FitsUint 32 d.gid
    × Wide S d.major
    × Wide S d.minor

-- Every write to a member of the bundle keeps `P`, those to the mounts and the namespaces aside.
pub record Stable (S : Simdjson) (P : Bundle → Type 0) : Type 0 where
  pub set_oci_version : (v : Text) (b : Bundle) → P b → P (record b { oci_version = v })
  pub set_terminal : (v : Bool) (b : Bundle) → P b → P (record b { terminal = v })
  pub set_console_width :
      (v : ℕ) (b : Bundle) → FitsUint 32 v → P b → P (record b { console_width = v })
  pub set_console_height :
      (v : ℕ) (b : Bundle) → FitsUint 32 v → P b → P (record b { console_height = v })
  pub set_cwd : (v : Text) (b : Bundle) → P b → P (record b { cwd = v })
  pub set_no_new_privileges : (v : Bool) (b : Bundle) → P b → P (record b { no_new_privileges = v })
  pub set_oom_score_adj :
      (v : ℤ) (b : Bundle) → FitsInt 32 v → P b → P (record b { oom_score_adj = v })
  pub set_uid : (v : ℤ) (b : Bundle) → FitsInt 32 v → P b → P (record b { uid = v })
  pub set_gid : (v : ℤ) (b : Bundle) → FitsInt 32 v → P b → P (record b { gid = v })
  pub set_u_mask : (v : ℤ) (b : Bundle) → FitsInt 32 v → P b → P (record b { u_mask = v })
  pub set_root_path : (v : Text) (b : Bundle) → P b → P (record b { root_path = v })
  pub set_root_readonly : (v : Bool) (b : Bundle) → P b → P (record b { root_readonly = v })
  pub set_cgroups_path : (v : Text) (b : Bundle) → P b → P (record b { cgroups_path = v })
  pub set_resources_memory_limit :
      (v : ℕ) (b : Bundle) → FitsUint 64 v → P b → P (record b { resources_memory_limit = v })
  pub set_resources_memory_reservation :
      (v : ℕ) (b : Bundle) → FitsUint 64 v → P b → P (record b { resources_memory_reservation = v })
  pub add_arg : (v : Text) (b : Bundle) → P b → P (push_arg v b)
  pub add_env : (v : Text) (b : Bundle) → P b → P (push_env v b)
  pub add_cmd : (v : Text) (b : Bundle) → P b → P (push_cmd v b)
  pub add_effective : (v : Text) (b : Bundle) → P b → P (push_effective v b)
  pub add_bounding : (v : Text) (b : Bundle) → P b → P (push_bounding v b)
  pub add_inheritable : (v : Text) (b : Bundle) → P b → P (push_inheritable v b)
  pub add_permitted : (v : Text) (b : Bundle) → P b → P (push_permitted v b)
  pub add_ambient : (v : Text) (b : Bundle) → P b → P (push_ambient v b)
  pub add_gid : (v : ℤ) (b : Bundle) → FitsInt 32 v → P b → P (push_gid v b)
  pub add_uid_mapping :
      (v : IdMappingDesc) (b : Bundle) → MappingFits v → P b → P (push_uid_mapping v b)
  pub add_device : (v : DeviceDesc) (b : Bundle) → DeviceFits S v → P b → P (push_device v b)
  pub add_limit :
      (t : Text) (soft hard : ℤ) (b : Bundle)
      → Wide S soft
      → Wide S hard
      → P b
      → P (push_limit t soft hard b)

module _ (S : Simdjson) where
  -- `get_int` returns a value of the type that it fills.
  pub get_uint-FitsUint : (w : ℕ) (e : S.Element) (v : ℕ) → get_uint S w e ≡ ok v → FitsUint w v
  unfolding get_uint
  get_uint-FitsUint w e v h = ground arith

  pub get_int-FitsInt : (w : ℕ) (e : S.Element) (v : ℤ) → get_int S w e ≡ ok v → FitsInt w v
  unfolding get_int
  get_int-FitsInt w e v h = ground arith

  pub get_int64-Wide : (e : S.Element) (v : ℤ) → S.get_int64 e ≡ ok v → Wide S v
  unfolding Wide
  get_int64-Wide e v h lawful = lawful.int64_range e h

  pub zero-Wide : Wide S (pos 0)
  unfolding Wide
  zero-Wide lawful = omega arith

  pub member-Wide : (r : Result S.Element) (v : ℤ) → (r >>= λ t. S.get_int64 t) ≡ ok v → Wide S v
  member-Wide (ok e) v h = get_int64-Wide e v h
  member-Wide (err n) v h = cc

mapping_container_id :
    (v : ℕ) (d : IdMappingDesc)
    → FitsUint 32 v
    → MappingFits d
    → MappingFits (record d { container_id = v })
mapping_container_id v d h p = (h, p.1, p.2)

mapping_host_id :
    (v : ℕ) (d : IdMappingDesc)
    → FitsUint 32 v
    → MappingFits d
    → MappingFits (record d { host_id = v })
mapping_host_id v d h p = (p.0, h, p.2)

mapping_size :
    (v : ℕ) (d : IdMappingDesc)
    → FitsUint 32 v
    → MappingFits d
    → MappingFits (record d { size = v })
mapping_size v d h p = (p.0, p.1, h)

module _ (S : Simdjson) where
  device_file_mode :
      (v : ℕ) (d : DeviceDesc)
      → FitsUint 32 v
      → DeviceFits S d
      → DeviceFits S (record d { file_mode = v })
  device_file_mode v d h p = (h, p.1, p.2, p.3, p.4)

  device_uid :
      (v : ℕ) (d : DeviceDesc)
      → FitsUint 32 v
      → DeviceFits S d
      → DeviceFits S (record d { uid = v })
  device_uid v d h p = (p.0, h, p.2, p.3, p.4)

  device_gid :
      (v : ℕ) (d : DeviceDesc)
      → FitsUint 32 v
      → DeviceFits S d
      → DeviceFits S (record d { gid = v })
  device_gid v d h p = (p.0, p.1, h, p.3, p.4)

  device_major :
      (v : ℤ) (d : DeviceDesc) → Wide S v → DeviceFits S d → DeviceFits S (record d { major = v })
  device_major v d h p = (p.0, p.1, p.2, h, p.4)

  device_minor :
      (v : ℤ) (d : DeviceDesc) → Wide S v → DeviceFits S d → DeviceFits S (record d { minor = v })
  device_minor v d h p = (p.0, p.1, p.2, p.3, h)

module _ (S : Simdjson) where
  pub mapping_field-Keeps : (x : Text × S.Element) → Keeps MappingFits (load_mapping_field S x)
  unfolding load_mapping_field
  mapping_field-Keeps x =
      search (keeps_rules, get_uint-FitsUint, mapping_container_id, mapping_host_id, mapping_size)
        depth 10

  pub device_field-Keeps : (x : Text × S.Element) → Keeps (DeviceFits S) (load_device_field S x)
  unfolding load_device_field
  device_field-Keeps x =
      search
        (
          keeps_rules,
          get_uint-FitsUint,
          device_file_mode S,
          device_uid S,
          device_gid S,
          device_major S,
          device_minor S,
          get_int64-Wide,
        )
        depth 16
