-- ===== src/Ledger.antt =====
-- The fragment ledger of a storage node: node/src/io/fragment_ledger.rs.
pub mod State
pub mod Ops
pub mod Sweep
pub mod Balance
pub mod Accounting
pub mod Housekeeping
pub mod History
pub mod Space
