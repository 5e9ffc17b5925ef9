-- ===== src/Core.antt =====
-- internal/core: the mutation pipeline of one account.
pub mod Requests
pub mod Operations
pub mod Send
