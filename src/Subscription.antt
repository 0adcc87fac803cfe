-- ===== src/Subscription.antt =====
-- internal/store: the subscription lifecycle, its actions, purchases and refund reviews, in memory.
pub mod Types
pub mod Policy
pub mod Actions
pub mod Endings
pub mod Purchases
pub mod Machine
pub mod Gate
pub mod Writes
pub mod Single
pub mod Release
pub mod Repeat
pub mod Cooldown
pub mod Versions
mod Tests
