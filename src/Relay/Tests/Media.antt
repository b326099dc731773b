-- ===== src/Relay/Tests/Media.antt =====
-- Instances of the theorems about crates/relay-server/src/media.rs, with a channel that is a list.
use teamview.Prelude.{
  ℕ, ◌+◌, ◌≡◌, ◌⊎◌, refl, some, none, List, [], ◌∷◌, ◌++◌, length, ltb, if◌then◌else◌, arith,
}
use teamview.Prelude.BtreeMap
use teamview.Prelude.BtreeSet
use teamview.Prelude.Result.{ok}
use teamview.Protocol.Packet.{
  encode, decode, encode_header, validate, eq_packet_type, u8_of_packet_type,
}
use teamview.Protocol.Codec.{eq_codec, u8_of_codec}
use teamview.Protocol.Packet.RoundTrip.{Fits, encode-ok_iff}
use teamview.Protocol.Tests.BigEndian.{big_endian, big_endian_laws}
use teamview.Relay.Room.{subscribers}
use teamview.Relay.Control.State.{published_stream, subscribers_for_stream, subscribers_in}
use teamview.Relay.Media.{
  EgressDatagram, accepted_stream, media_kind_packet_type, datagram_of, outgoing,
  try_reserve_stream_depth,
}
use teamview.Relay.Media.Channel.{Mpsc, MpscLaws, SendOutcome}
use teamview.Relay.Media.Egress.{
  MediaRelay, with_egress_limits, register, forward_media_packet, try_reserve_media,
}
use teamview.Relay.Media.Depths.{IsTimed, IsAccounted}
use teamview.Relay.Media.Interleaving.{
  Shared, registered, reserves, outstanding, reachable-IsAccounted, Reachable,
}
use teamview.Relay.Media.Forwarding.{
  IsAccepted, count_others, offered_to, forward_media_packet-IsAccepted,
  forward_media_packet-counts, forward_media_packet-lookup,
}
use teamview.Relay.Media.Delivery.{with_server_times, decode-outgoing}
use teamview.Relay.Tests.Sample.{state, stream, packet}

-- A bounded channel that is never closed.
abbrev pub ListChannel : Type 0
ListChannel = ℕ × List EgressDatagram

pub list_try_send : ListChannel → EgressDatagram → ListChannel × SendOutcome
list_try_send (capacity, ds) d =
    if ltb (length ds) capacity
    then ((capacity, ds ++ (d ∷ [])), SendOutcome.sent)
    else ((capacity, ds), SendOutcome.full)

abbrev pub channel : Mpsc ListChannel EgressDatagram
channel = record {
  channel = λ capacity. (capacity, []);
  try_send = list_try_send;
  recv = λ c. elim c.1 [ [] ↦ none | d ∷ ds ↦ some (d, (c.0, ds)) ];
}

list_recv :
    (c c' : ListChannel) (d : EgressDatagram) → channel.recv c ≡ some (d, c') → c.1 ≡ d ∷ c'.1
list_recv (capacity, []) c' d e = ground arith
list_recv (capacity, x ∷ ds) c' d e = ground (arith, e)

channel_laws : MpscLaws channel
unfolding list_try_send
channel_laws = record {
  waiting = λ c. c.1;
  waiting-channel = λ capacity. refl;
  waiting-sent = λ c d e. ground (arith, e);
  waiting-full = λ c d e. ground (arith, e);
  waiting-closed = λ c d e. ground (arith, e);
  waiting-recv = list_recv;
}

abbrev pub relay : MediaRelay ListChannel
unfolding with_egress_limits register
relay = register channel (with_egress_limits channel 2 100) 2

abbrev sample : EgressDatagram
sample = record { stream_id = 7; packet = packet; media_duration_ms = 34 }

sample-IsTimed : IsTimed sample
sample-IsTimed = record { positive = omega arith; short = omega arith }

start : Shared ListChannel
start = record {
  egress = record { sender = (2, []); stream_depths = [] };
  offering = none;
  sending = none;
}

reserved : Shared ListChannel
unfolding try_reserve_media
reserved = record {
  egress = (try_reserve_media channel (record { sender = (2, []); stream_depths = [] }) 7 34 100).1;
  offering = some sample;
  sending = none;
}

reached : Reachable channel 100 reserved
unfolding reserved try_reserve_stream_depth BtreeMap.get_or BtreeMap.lookup
reached = reserves sample sample-IsTimed (registered 2)

reachable-IsAccounted_example :
    IsAccounted 100 reserved.egress.stream_depths (outstanding channel channel_laws 100 reserved)
reachable-IsAccounted_example =
    reachable-IsAccounted channel channel_laws 100 reserved (omega arith) reached

packet_valid : validate packet.header ≡ ok tt
unfolding validate eq_packet_type u8_of_packet_type eq_codec u8_of_codec
packet_valid = refl

packet-Fits : Fits packet.header
packet-Fits = record {
  version = omega arith;
  flags = omega arith;
  room_stream_id = omega arith;
  sequence_number = omega arith;
  frame_id = omega arith;
  fragment_index = omega arith;
  fragment_count = omega arith;
  media_timestamp = omega arith;
  sender_capture_time_micros = omega arith;
  sender_clock_offset_micros = omega arith;
  sender_encode_done_time_micros = omega arith;
  sender_send_time_micros = omega arith;
  server_receive_time_micros = omega arith;
  server_send_time_micros = omega arith;
  layer = omega arith;
  payload_length = omega arith;
}

datagram : List ℕ
datagram = encode_header big_endian packet.header ++ packet.payload

encoded : encode big_endian packet ≡ ok datagram
unfolding datagram
encoded = (encode-ok_iff big_endian packet datagram).1 (omega arith, refl, packet_valid, refl)

decode-outgoing_example :
    (sent : List ℕ) × (outgoing big_endian (datagram_of packet stream 100 5000) 6000 ≡ some sent)
    × (decode big_endian sent ≡ ok (with_server_times packet 5000 6000))
decode-outgoing_example =
    decode-outgoing big_endian_laws packet packet-Fits stream datagram 100 5000 6000 refl encoded
      (omega arith) (omega arith)

accepted : accepted_stream big_endian state 1 packet ≡ some stream
unfolding accepted_stream published_stream BtreeMap.lookup BtreeMap.values eq_codec u8_of_codec
    eq_packet_type u8_of_packet_type media_kind_packet_type
accepted = rw encoded refl

viewers-IsSorted : BtreeSet.IsSorted (subscribers_for_stream state 7)
unfolding subscribers_for_stream subscribers_in subscribers BtreeMap.values BtreeMap.contains_key
    BtreeMap.lookup
viewers-IsSorted = (omega arith, tt)

forward_media_packet-counts_example :
    (forward_media_packet channel big_endian relay state 1 packet 5000).1.queued
      + (forward_media_packet channel big_endian relay state 1 packet 5000).1.dropped
    ≡ count_others 1 (subscribers_for_stream state 7)
forward_media_packet-counts_example =
    forward_media_packet-counts channel big_endian relay state 1 packet 5000 stream accepted

forward_media_packet-lookup_example :
    BtreeMap.lookup 2 (forward_media_packet channel big_endian relay state 1 packet 5000).0.egress
    ≡ (if BtreeSet.contains 2 (subscribers_for_stream state 7)
        then offered_to channel state stream 1
            (datagram_of packet stream 100 5000)
            100
            2
            (BtreeMap.lookup 2 relay.egress)
        else BtreeMap.lookup 2 relay.egress)
unfolding relay
forward_media_packet-lookup_example =
    forward_media_packet-lookup channel big_endian relay state 1 packet 5000 stream 2 accepted
      viewers-IsSorted

forward_media_packet-IsAccepted_example :
    IsAccepted big_endian state 2 packet
    ⊎ (forward_media_packet channel big_endian relay state 2 packet 5000
        ≡ (relay, record { stream_id = 7; queued = 0; dropped = 1 }))
forward_media_packet-IsAccepted_example =
    forward_media_packet-IsAccepted channel big_endian relay state 2 packet 5000
