-- ===== src/TaskSession/Invariant.antt =====
-- internal/tasksession/store.go: the stores that calls can lead to.
pub mod Keys
pub mod Choice
pub mod Ownership
pub mod Capacity
pub mod Numbering
