-- ===== src/Routing.antt =====
-- The choice of the channel that serves a request.
pub mod Rows
pub mod Pick
pub mod Priority
pub mod Select
pub mod Ranked
pub mod Cache
pub mod Listed
pub mod Synced
pub mod Panics
pub mod Keys
pub mod Turns
pub mod Status
pub mod Changed
pub mod Stored
mod Tests
