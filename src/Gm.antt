-- ===== src/Gm.antt =====
-- internal/gm: the vocabulary of what Google says about messages and sends.
pub mod Delivery
pub mod Errors
mod Tests
