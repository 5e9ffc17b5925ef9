-- ===== src/Accounts.antt =====
-- internal/accounts: the supervised accounts, their states and the feed of state changes.
pub mod State
pub mod Feed
pub mod Supervisor
mod Tests
