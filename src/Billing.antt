-- ===== src/Billing.antt =====
-- Billing of a relayed request: the hold, the refund and the settlement.
pub mod Info
pub mod Lookup
pub mod Consume
pub mod Text
mod Charged
mod Settle
mod Usage
pub mod Reads
mod Outcome
mod Conclude
mod Prices
mod Turns
mod Paid
mod Posted
pub mod Session
mod Whole
mod PriceTests
mod SessionTests
mod Hold
pub mod Request
pub mod Price
pub mod Posts
pub mod Realtime
mod Tests
