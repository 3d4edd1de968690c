-- ===== src/Examples.antt =====
-- Concrete inputs, and the theorems at them.
mod BundleRuns
mod StateRuns
mod CommandRuns
mod CreateRuns
mod CGroupRuns
mod LifecycleRuns
