-- ===== src/Authz.antt =====
-- internal/authz: scopes, limiters, and the refresh and use of credentials.
pub mod Scopes
pub mod Limits
pub mod Buckets
pub mod Concurrency
pub mod Cooldown
pub mod Session
pub mod Rotation
pub mod Refresh
pub mod Exchange
pub mod Bearer
mod Tests
