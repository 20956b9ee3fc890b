-- ===== src/Relay.antt =====
-- The relay's retries: controller/relay.go and service/channel.go.
pub mod Retry
pub mod Attempts
pub mod Tried
pub mod Disable
pub mod Mode
mod Tests
