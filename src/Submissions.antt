-- ===== src/Submissions.antt =====
-- The submission core: orchestrator/src/buttercup/orchestrator/scheduler/submissions.py.
pub mod Entry
pub mod Env
pub mod State
pub mod Pov
pub mod Patch
pub mod PatchFlow
pub mod PatchStatus
pub mod Bundles
pub mod Records
pub mod Cycle
pub mod Counted
pub mod Evolves
