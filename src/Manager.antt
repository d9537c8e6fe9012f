-- ===== src/Manager.antt =====
-- internal/core/manager/manager.go: the query manager.
pub mod Defs
pub mod Admission
pub mod Watchers
pub mod Submit
pub mod Completion
pub mod Run
pub mod Capacity
pub mod Reaper
pub mod Garbage
pub mod Pools
pub mod Control
pub mod Reload
