-- ===== src/Session.antt =====
-- Durable uploads: the session of an upload, its lock, and how an upload is resumed.
pub mod State
pub mod Resume
pub mod Slices
pub mod Transfers
pub mod Resumed
pub mod Handle
pub mod Locked
pub mod Stuck
