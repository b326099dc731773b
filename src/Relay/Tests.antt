-- ===== src/Relay/Tests.antt =====
-- Tests of the model of crates/relay-server, and instances of its theorems.
mod Sample
mod Fanout
mod Control
mod Rooms
mod Samples
mod Media
mod Connections
