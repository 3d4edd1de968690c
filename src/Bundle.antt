-- ===== src/Bundle.antt =====
-- `Bundle` of include/bundle.h: what a container's configuration file says. src/bundle.cpp fills it;
-- the children model the loading, a child for each of its lambdas.
pub mod Process
pub mod Root
pub mod Linux
pub mod Load
pub mod Stable
pub mod Loops
pub mod Preserved
pub mod Namespaces
pub mod Collected
pub mod Range
pub mod Unwritten
pub mod Entries
pub mod Mounts
pub mod Keys
use runw.Common.{ℕ, ℤ, pos, Bool, false, List, [], Text}

pub record MountDesc : Type 0 where
  pub destination : Text
  pub source : Text
  pub type : Text
  pub options : List Text

pub record NamespaceDesc : Type 0 where
  pub type : Text
  pub path : Text

pub record IdMappingDesc : Type 0 where
  pub container_id : ℕ  -- uint32_t
  pub host_id : ℕ  -- uint32_t
  pub size : ℕ  -- uint32_t

pub record DeviceDesc : Type 0 where
  pub type : Text
  pub path : Text
  pub major : ℤ  -- int64_t
  pub minor : ℤ  -- int64_t
  pub file_mode : ℕ  -- uint32_t
  pub uid : ℕ  -- uint32_t
  pub gid : ℕ  -- uint32_t

-- Every member of the class, in its order.
pub record Bundle : Type 0 where
  pub oci_version : Text
  pub terminal : Bool
  pub console_width : ℕ  -- uint32_t
  pub console_height : ℕ  -- uint32_t
  pub cwd : Text
  pub envs : List Text
  pub args : List Text
  pub cmds : List Text
  pub command_line : Text
  pub r_limits : List (Text × ℤ × ℤ)  -- type, soft and hard, int64_t
  pub apparmor_profile : Text
  pub selinux_label : Text
  pub effective_capabilities : List Text
  pub bounding_capabilities : List Text
  pub inheritable_capabilities : List Text
  pub permitted_capabilities : List Text
  pub ambient_capabilities : List Text
  pub no_new_privileges : Bool
  pub oom_score_adj : ℤ  -- int32_t
  pub uid : ℤ  -- int32_t
  pub gid : ℤ  -- int32_t
  pub u_mask : ℤ  -- int32_t
  pub additional_gids : List ℤ  -- int32_t
  pub username : Text
  pub hostname : Text
  pub root_path : Text
  pub root_readonly : Bool
  pub mounts : List MountDesc
  pub namespaces : List NamespaceDesc
  pub uid_mappings : List IdMappingDesc
  pub gid_mappings : List IdMappingDesc
  pub devices : List DeviceDesc
  pub cgroups_path : Text
  pub resources_memory_limit : ℕ  -- uint64_t
  pub resources_memory_reservation : ℕ  -- uint64_t

abbrev pub empty_mount : MountDesc
empty_mount = record { destination = []; source = []; type = []; options = [] }

abbrev pub empty_namespace : NamespaceDesc
empty_namespace = record { type = []; path = [] }

abbrev pub empty_mapping : IdMappingDesc
empty_mapping = record { container_id = 0; host_id = 0; size = 0 }

abbrev pub empty_device : DeviceDesc
empty_device = record {
  type = [];
  path = [];
  major = pos 0;
  minor = pos 0;
  file_mode = 0;
  uid = 0;
  gid = 0;
}

-- `Bundle() = default`.
abbrev pub empty_bundle : Bundle
empty_bundle = record {
  oci_version = [];
  terminal = false;
  console_width = 0;
  console_height = 0;
  cwd = [];
  envs = [];
  args = [];
  cmds = [];
  command_line = [];
  r_limits = [];
  apparmor_profile = [];
  selinux_label = [];
  effective_capabilities = [];
  bounding_capabilities = [];
  inheritable_capabilities = [];
  permitted_capabilities = [];
  ambient_capabilities = [];
  no_new_privileges = false;
  oom_score_adj = pos 0;
  uid = pos 0;
  gid = pos 0;
  u_mask = pos 0;
  additional_gids = [];
  username = [];
  hostname = [];
  root_path = [];
  root_readonly = false;
  mounts = [];
  namespaces = [];
  uid_mappings = [];
  gid_mappings = [];
  devices = [];
  cgroups_path = [];
  resources_memory_limit = 0;
  resources_memory_reservation = 0;
}
