-- ===== src/Relay.antt =====
-- crates/relay-server: the relay's state and what it does with control messages and media packets.
pub mod Session
pub mod Room
pub mod Router
pub mod Metrics
pub mod Config
pub mod Control
pub mod Media
pub mod ControlStream
mod Tests
