-- ===== src/Locking.antt =====
-- The per-file locks of a storage node: node/src/locking/file_lock_table.rs, file_read_guard.rs
-- and file_write_guard.rs.
pub mod Table
pub mod Exclusion
pub mod Race
