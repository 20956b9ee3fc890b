-- ===== src/Auth.antt =====
-- Who may do what: middleware/auth.go and the token's checks of model/token.go.
pub mod Session
pub mod Access
pub mod Token
mod Tests
