-- ===== src/Protocol/Control.antt =====
-- crates/protocol/src/control.rs: the messages of the control plane.
pub mod Names
pub mod Media
pub mod Rooms
pub mod Envelope
pub mod Json
