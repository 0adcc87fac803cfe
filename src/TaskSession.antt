-- ===== src/TaskSession.antt =====
-- internal/tasksession: the control plane of task sessions, over its in-memory store.
pub mod Value
pub mod Types
pub mod Payload
pub mod Routing
pub mod Namespaces
pub mod Sessions
pub mod Events
pub mod Messages
pub mod Runs
pub mod Leases
pub mod Claim
pub mod Machine
pub mod Change
pub mod Invariant
pub mod Replay
pub mod Fairness
pub mod Progress
pub mod Lifecycle
pub mod Retry
pub mod Fencing
pub mod Limits
pub mod Tenancy
pub mod Counters
mod Tests
