-- ===== src/Store.antt =====
-- internal/store: the single writer, and the tables of operations and of credentials with the
-- statements that run on them.
pub mod Write
pub mod OperationRows
pub mod Erasure
pub mod Operations
pub mod Credentials
pub mod Codes
pub mod Accounts
