-- ===== src/Transfer.antt =====
-- Moving the bytes of a fragment between nodes: node/src/file_transfer/transfer_manager.rs (the
-- sender), the file chunks of channel_handler.rs (the receiver), and the ranges of
-- protocol/src/mdsftp/data.rs.
pub mod Upload
pub mod Receive
pub mod Packets
pub mod Content
pub mod Completion
pub mod Roundtrip
