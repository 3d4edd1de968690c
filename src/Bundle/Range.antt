-- ===== src/Bundle/Range.antt =====
-- The integers of a loaded bundle fit the types of its members in include/bundle.h.
use runw.Common.{ℤ, [], ◌∷◌, Option, Text, All, All-append, arith}
use runw.Json.{Simdjson, IsLawful}
use runw.Bundle.{Bundle, DeviceDesc, empty_bundle}
use runw.Bundle.Load.{load}
use runw.Bundle.Preserved.{load-Keeps}
use runw.Bundle.Stable.{FitsInt, FitsUint, MappingFits, Wide, Stable}

abbrev pub DeviceInRange : DeviceDesc → Type 0
DeviceInRange d =
    FitsUint 32 d.file_mode
    × FitsUint 32 d.uid
    × FitsUint 32 d.gid
    × FitsInt 64 d.major
    × FitsInt 64 d.minor

abbrev pub LimitInRange : Text × ℤ × ℤ → Type 0
LimitInRange (type, soft, hard) = FitsInt 64 soft × FitsInt 64 hard

-- Every member that the loading fills from a number, at the width of its type.
abbrev pub InRange : Bundle → Type 0
InRange b =
    FitsUint 32 b.console_width
    × FitsUint 32 b.console_height
    × FitsInt 32 b.oom_score_adj
    × FitsInt 32 b.uid
    × FitsInt 32 b.gid
    × FitsInt 32 b.u_mask
    × All (FitsInt 32) b.additional_gids
    × All MappingFits b.uid_mappings
    × All MappingFits b.gid_mappings
    × All DeviceInRange b.devices
    × FitsUint 64 b.resources_memory_limit
    × FitsUint 64 b.resources_memory_reservation
    × All LimitInRange b.r_limits

InRange-Stable : (S : Simdjson) → IsLawful S → Stable S InRange
unfolding Wide
InRange-Stable S lawful = record {
  set_oci_version = λ v b i. i;
  set_terminal = λ v b i. i;
  set_console_width = λ v b f i. (f, i.1, i.2, i.3, i.4, i.5, i.6, i.7, i.8, i.9, i.10, i.11, i.12);
  set_console_height =
      λ v b f i. (i.0, f, i.2, i.3, i.4, i.5, i.6, i.7, i.8, i.9, i.10, i.11, i.12);
  set_cwd = λ v b i. i;
  set_no_new_privileges = λ v b i. i;
  set_oom_score_adj = λ v b f i. (i.0, i.1, f, i.3, i.4, i.5, i.6, i.7, i.8, i.9, i.10, i.11, i.12);
  set_uid = λ v b f i. (i.0, i.1, i.2, f, i.4, i.5, i.6, i.7, i.8, i.9, i.10, i.11, i.12);
  set_gid = λ v b f i. (i.0, i.1, i.2, i.3, f, i.5, i.6, i.7, i.8, i.9, i.10, i.11, i.12);
  set_u_mask = λ v b f i. (i.0, i.1, i.2, i.3, i.4, f, i.6, i.7, i.8, i.9, i.10, i.11, i.12);
  set_root_path = λ v b i. i;
  set_root_readonly = λ v b i. i;
  set_cgroups_path = λ v b i. i;
  set_resources_memory_limit =
      λ v b f i. (i.0, i.1, i.2, i.3, i.4, i.5, i.6, i.7, i.8, i.9, f, i.11, i.12);
  set_resources_memory_reservation =
      λ v b f i. (i.0, i.1, i.2, i.3, i.4, i.5, i.6, i.7, i.8, i.9, i.10, f, i.12);
  add_arg = λ v b i. i;
  add_env = λ v b i. i;
  add_cmd = λ v b i. i;
  add_effective = λ v b i. i;
  add_bounding = λ v b i. i;
  add_inheritable = λ v b i. i;
  add_permitted = λ v b i. i;
  add_ambient = λ v b i. i;
  add_gid = λ v b f i. (
    i.0,
    i.1,
    i.2,
    i.3,
    i.4,
    i.5,
    All-append (FitsInt 32) b.additional_gids (v ∷ []) i.6 (f, tt),
    i.7,
    i.8,
    i.9,
    i.10,
    i.11,
    i.12,
  );
  add_uid_mapping = λ v b f i. (
    i.0,
    i.1,
    i.2,
    i.3,
    i.4,
    i.5,
    i.6,
    All-append (MappingFits) b.uid_mappings (v ∷ []) i.7 (f, tt),
    i.8,
    i.9,
    i.10,
    i.11,
    i.12,
  );
  add_device = λ v b f i. (
    i.0,
    i.1,
    i.2,
    i.3,
    i.4,
    i.5,
    i.6,
    i.7,
    i.8,
    All-append (DeviceInRange) b.devices (v ∷ []) i.9 ((f.0, f.1, f.2, f.3 lawful, f.4 lawful), tt),
    i.10,
    i.11,
    i.12,
  );
  add_limit = λ t soft hard b f g i. (
    i.0,
    i.1,
    i.2,
    i.3,
    i.4,
    i.5,
    i.6,
    i.7,
    i.8,
    i.9,
    i.10,
    i.11,
    All-append LimitInRange b.r_limits ((t, soft, hard) ∷ []) i.12 ((f lawful, g lawful), tt),
  );
}

-- Whatever the configuration file holds, and whether loading it succeeds or fails midway, every
-- integer of the bundle that was in range for the type of its member still is: no value is cut. The
-- parser's 64-bit integers are in the range of their types.
pub load-InRange :
    (S : Simdjson)
    → IsLawful S
    → (file : Option Text) (b : Bundle) → InRange b
    → InRange (load S file b).0
load-InRange S lawful file =
    (load-Keeps S (InRange-Stable S lawful) (λ v b i. i) (λ v b i. i) file).at

pub empty-InRange : InRange empty_bundle
empty-InRange = omega arith
