-- ===== src/Wire.antt =====
-- The wire format of MDSFTP: protocol/src/mdsftp/net/wire.rs, net/packet_type.rs, and the flags of
-- protocol/src/mdsftp/data.rs.
pub mod Bytes
pub mod Header
pub mod PacketType
pub mod Flags
pub mod Message
pub mod Payload
pub mod Stream
pub mod Framing
pub mod Delivery
