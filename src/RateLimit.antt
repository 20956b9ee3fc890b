-- ===== src/RateLimit.antt =====
-- Rate limiting: the in-memory limiter, its window, and the gin middlewares over it.
pub mod Memory
pub mod Spec
pub mod Run
mod Frame
mod Window
pub mod Exact
pub mod Bound
pub mod Redis
pub mod RedisRun
pub mod RedisExact
pub mod Middleware
pub mod Handled
pub mod Agree
mod Tests
mod HandlerTests
