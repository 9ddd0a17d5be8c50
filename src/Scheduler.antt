-- ===== src/Scheduler.antt =====
-- The scheduler: orchestrator/src/buttercup/orchestrator/scheduler/scheduler.py.
pub mod Builds
pub mod Weights
pub mod Serve
pub mod Service
