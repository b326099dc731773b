-- ===== src/Protocol.antt =====
-- crates/protocol: what goes over the wire.
pub mod Codec
pub mod Wire
pub mod Packet
pub mod Frame
pub mod Stats
pub mod Tests
pub mod Control
