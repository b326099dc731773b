-- ===== src/Relay/Control.antt =====
-- crates/relay-server/src/control.rs: the relay's control plane.
pub mod Names
pub mod State
pub mod Checks
pub mod Targets
pub mod Voice
pub mod Membership
pub mod Streams
pub mod Input
pub mod Feedback
pub mod Queries
pub mod Rooms
pub mod Handle
