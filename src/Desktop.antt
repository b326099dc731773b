-- ===== src/Desktop.antt =====
-- crates/desktop-client: the parts of the client that keep state or compute.
pub mod Decode
pub mod Capture
pub mod Stats
pub mod App
pub mod AnnexB
pub mod Synthetic
mod Tests
