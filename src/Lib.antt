-- ===== src/Lib.antt =====
-- A model of teamview: a relay that forwards screen and voice streams between the members of a room,
-- and the protocol that its clients speak.
--
-- The parts and the files:
--
-- In Prelude stands what the parts share. Tests has Boolean tests on numbers; Lists has lists measured by
-- native numbers; BtreeMap and BtreeSet are the ordered maps and sets of the program, as ascending
-- lists; Words has saturating operations, casts and `clamp`; Int has the values of an `i64`; Text
-- has strings as lists of code points; Result has the two outcomes of a fallible function, and the
-- panic as a third.
-- Protocol models crates/protocol. Protocol/Codec is src/codec.rs, Protocol/Packet is src/packet.rs,
-- Protocol/Frame is src/frame.rs, Protocol/Stats is src/stats.rs, and Protocol/Control/* are the
-- messages of src/control.rs. Protocol/Wire is the part of the `bytes` crate that packet.rs calls:
-- a parameter, whose laws state that a put value of each width is read back; Protocol/Tests/BigEndian
-- is an instance of it.
-- Relay models crates/relay-server. Relay/Session, Relay/Room, Relay/Router, Relay/Metrics and
-- Relay/Config are src/session.rs, room.rs, router.rs, metrics.rs and config.rs. Relay/Control/* are
-- src/control.rs: State has `ControlState` and its look-ups; Handle has `handle_client_envelope`,
-- whose `dispatch` calls one function for each message; Membership, Voice, Streams, Targets,
-- Feedback, Input, Names and Queries have the handlers and what they call.
--
-- Relay/Media* are src/media.rs: Media has the depths, the guards and what is sent for a datagram;
-- Media/Egress has `MediaRelay` and its operations; Media/Channel is the bounded channel of tokio, a
-- parameter.
-- Relay/ControlStream is src/control_stream.rs: `ControlRuntime` and what it does with a connection, a
-- control stream and a datagram. Protocol/Control/Json has the functions of control.rs that encode and
-- decode an envelope; serde_json is a parameter.
-- Desktop models crates/desktop-client. Desktop/Decode is src/decode/mod.rs, Desktop/Capture is
-- src/capture/mod.rs, Desktop/Stats is src/stats.rs, and Desktop/App with Desktop/App/Discovery is
-- src/app.rs. Desktop/AnnexB is the framing of the synthetic stream that src/encode/h264.rs writes and
-- src/decode/h264.rs reads, and Desktop/Synthetic has the payloads, the encoder and
-- the decoder of that stream.
--
-- How the parts interact: a packet of crates/protocol goes to the fanout of a stream, which offers it
-- to the queue of each viewer. A control message goes to `handle_client_envelope` with the session of
-- its connection; the handlers read and change the rooms of `ControlState`. A handler is a function
-- from the state (and the session) to the state after it and the reply. Its early returns are the
-- `refused` case of the monad `Check`: `answer` pairs a refusal with the state before the handler.
-- What a `&mut` method changes is part of the result of its function.
--
-- Numbers are natural numbers: the arithmetic that saturates, wraps or is cast in the source does so
-- here, with the width written out. The clock is read into arguments (`now`, `later`).
--
-- Every function is total, by recursion on a list or on a number of rounds that the source computes
-- beforehand: `packetize_loop` runs once for each fragment. `decimal_loop` has fuel for 20 digits,
-- which is enough for a number of 64 bits. `collect_nals` has fuel for the units that it gives; any
-- number from that of the units on is enough.
--
-- Rooms/* under Relay/Control has the invariant of the rooms: AreConsistent states it, one file for
-- each group of handlers proves that they keep it, and History puts them together over `Reachable`,
-- the states after any sequence of messages, disconnects and forwarded packets. Relay/Router/Queue
-- does the same for a viewer's queue with `History`. In Relay/Media/Interleaving the relay and the
-- send task of a viewer share a channel and the depths; `Reachable` has a step for each of their calls,
-- so that the two may alternate in any way. The locks are never poisoned, since no code panics while
-- it holds one. Relay/Router/Refinement compares a
-- fanout with a queue for each viewer. A reservation of memory panics above isize::MAX bytes where the
-- source makes one of a computed size; the machine never runs out of memory otherwise.
-- Relay/ControlStream/Lifecycle has a step for what the relay does under one lock, so that
-- connections may interleave. Desktop/App/Selection has the states of the client's operations.
--
-- Not modelled: the JSON text of the control messages (serde_json), the QUIC transport, screen and
-- audio capture, the codecs but for the synthetic one, playback and the main
-- loops of the desktop client, the load test and the user interface. They are input and output, system
-- calls, or parts that stand beside the ones modelled here.
pub mod Prelude
pub mod Protocol
pub mod Relay
pub mod Desktop
