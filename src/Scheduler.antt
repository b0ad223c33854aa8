-- ===== src/Scheduler.antt =====
-- The scheduler of `src/scheduler.rs` and `src/scheduler/`: nodes, resource accesses, and the
-- planner that hands systems to threads.
pub mod Defs
pub mod Planner
pub mod Executor
pub mod Access
pub mod Topology
pub mod Examples
pub mod Builder
