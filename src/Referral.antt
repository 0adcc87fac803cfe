-- ===== src/Referral.antt =====
-- internal/store: the referral programme, in memory.
pub mod Types
pub mod Campaigns
pub mod Codes
pub mod Rewards
pub mod Settlements
pub mod Extensions
pub mod Machine
pub mod Writes
pub mod Effects
pub mod Rewarded
pub mod Reachable
pub mod Paid
pub mod Coded
pub mod History
pub mod Spent
mod Tests
