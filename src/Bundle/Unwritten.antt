-- ===== src/Bundle/Unwritten.antt =====
-- The members of a bundle that no configuration file can fill.
use runw.Common.{◌≡◌, refl, Option, Text}
use runw.Json.{Simdjson}
use runw.Bundle.{Bundle}
use runw.Bundle.Load.{load}
use runw.Bundle.Preserved.{load-Keeps}
use runw.Bundle.Stable.{Stable}

-- `b` has the members of `a` that the loading never writes.
abbrev pub Unwritten : Bundle → Bundle → Type 0
Unwritten a b =
    (b.command_line ≡ a.command_line)
    × (b.apparmor_profile ≡ a.apparmor_profile)
    × (b.selinux_label ≡ a.selinux_label)
    × (b.username ≡ a.username)
    × (b.hostname ≡ a.hostname)
    × (b.gid_mappings ≡ a.gid_mappings)

Unwritten-Stable : (S : Simdjson) (a : Bundle) → Stable S (Unwritten a)
Unwritten-Stable S a = record {
  set_oci_version = λ v b i. i;
  set_terminal = λ v b i. i;
  set_console_width = λ v b _ i. i;
  set_console_height = λ v b _ i. i;
  set_cwd = λ v b i. i;
  set_no_new_privileges = λ v b i. i;
  set_oom_score_adj = λ v b _ i. i;
  set_uid = λ v b _ i. i;
  set_gid = λ v b _ i. i;
  set_u_mask = λ v b _ i. i;
  set_root_path = λ v b i. i;
  set_root_readonly = λ v b i. i;
  set_cgroups_path = λ v b i. i;
  set_resources_memory_limit = λ v b _ i. i;
  set_resources_memory_reservation = λ v b _ i. i;
  add_arg = λ v b i. i;
  add_env = λ v b i. i;
  add_cmd = λ v b i. i;
  add_effective = λ v b i. i;
  add_bounding = λ v b i. i;
  add_inheritable = λ v b i. i;
  add_permitted = λ v b i. i;
  add_ambient = λ v b i. i;
  add_gid = λ v b _ i. i;
  add_uid_mapping = λ v b _ i. i;
  add_device = λ v b _ i. i;
  add_limit = λ t s h b _ _ i. i;
}

-- For every configuration file, valid or not, loading leaves the command line, the AppArmor profile,
-- the SELinux label, the user name, the host name and the gid mappings as they were. The gid mappings
-- stay so although the file may have an entry "gidMappings".
pub load-Unwritten :
    (S : Simdjson) (file : Option Text) (b : Bundle) → Unwritten b (load S file b).0
load-Unwritten S file b =
    (load-Keeps S (Unwritten-Stable S b) (λ v a i. i) (λ v a i. i) file).at b
      (refl, refl, refl, refl, refl, refl)
