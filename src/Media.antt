-- ===== src/Media.antt =====
-- internal/media: tickets for uploads and downloads, and the cache of media.
pub mod Ticket
pub mod Cache
