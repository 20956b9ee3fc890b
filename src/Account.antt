-- ===== src/Account.antt =====
-- What users do with their own accounts: check-in and the quota of invitations.
pub mod CheckIn
pub mod Committed
pub mod Rewarded
pub mod Daily
pub mod Transfer
mod Tests
