-- ===== src/CGroup.antt =====
-- src/cgroup.cpp. The children model its parts.
pub mod UnitName
pub mod JobStatus
pub mod Enter
pub mod References
pub mod Script
pub mod Typed
pub mod Finalize
pub mod Search
pub mod Entry
