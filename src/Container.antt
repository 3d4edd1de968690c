-- ===== src/Container.antt =====
-- The container's process: `doRunInternal` of src/runw.cpp from its second fork on, in the child.
pub mod Namespaces
pub mod Run
pub mod Lifecycle
pub mod Left
pub mod Recorded
pub mod Loads
pub mod Finishes
