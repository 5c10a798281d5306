-- ===== src/Network.antt =====
-- network/: rate limits and retries.
pub mod Bucket
pub mod Budgets
pub mod Retry
pub mod Egress
pub mod Health
pub mod Store
pub mod Assignment
