-- ===== src/Schedule.antt =====
-- The scheduling stage: src/schedule.rs and src/schedule.
pub mod Ir
pub mod Alloc
pub mod Layout
pub mod Kernels
pub mod Placement
pub mod Deps
pub mod Order
pub mod Aliases
pub mod Scheduler
pub mod Prefetch
mod Tests
