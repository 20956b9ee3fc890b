-- ===== src/Redemption.antt =====
-- Redemption codes and gift codes: model/redemption.go and the rebate of model/user.go.
pub mod Redeem
pub mod Spec
pub mod Steps
pub mod Transaction
pub mod Once
mod Tests
