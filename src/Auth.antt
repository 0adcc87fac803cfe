-- ===== src/Auth.antt =====
-- internal/auth: the limiter of calls.
pub mod RateLimiter
pub mod Windows
pub mod Metered
mod Tests
