-- ===== src/Finance.antt =====
-- internal/store: the finance ledger of invoices, payments, refunds and provider operations, in memory.
pub mod Types
pub mod Requests
pub mod Invoices
pub mod Payments
pub mod Refunds
pub mod Operations
pub mod Attempts
pub mod Machine
pub mod Coverage
pub mod Settlement
pub mod Retry
pub mod RefundRetry
pub mod Exclusion
pub mod Pointers
mod Tests
