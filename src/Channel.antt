-- ===== src/Channel.antt =====
-- The two ends of a connection: what waits on a channel, the channels of a connection, and the
-- connections of a node. It is protocol/src/mdsftp/channel.rs, connection.rs and pool.rs.
pub mod Pending
pub mod Answers
pub mod Connection
pub mod Ids
pub mod Count
pub mod Dispatch
pub mod Pool
pub mod Stopped
