-- ===== src/Quota.antt =====
-- Quota accounting: the counters of users, tokens and channels, directly in the database or
-- through the batch updater.
pub mod World
pub mod Batch
pub mod Users
pub mod Tokens
pub mod Effective
mod Tests
