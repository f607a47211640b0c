-- ===== src/Handler.antt =====
-- What a node does with the packets of a channel: node/src/file_transfer/channel_handler.rs, over
-- the fragment ledger and the lock table.
pub mod State
pub mod Streams
pub mod Transfers
pub mod Requests
pub mod Messages
pub mod Keeps
pub mod Parts
pub mod Balance
pub mod Happenings
pub mod Invariant
pub mod Committed
pub mod Holding
pub mod Resumed
pub mod Interrupt
pub mod Interrupted
