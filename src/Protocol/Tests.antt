-- ===== src/Protocol/Tests.antt =====
-- Tests of the model of crates/protocol, and instances of its theorems.
mod Json
pub mod BigEndian
use mathlib.Core.List.{Perm, Permᴰ}
use teamview.Prelude.{
  ℕ, ◌+◌, ◌≤◌, ◌≡◌, ◌↔◌, ◌≢◌, refl, Bool, true, false, List, [], ◌∷◌, ◌++◌, length, min, arith,
}
use teamview.Prelude.Int.{pos, negsuc}
use teamview.Prelude.Result.{ok}
use teamview.Protocol.Codec.{CodecId, protocol_version}
use teamview.Protocol.Packet.{
  PacketType, MediaPacketHeader, MediaPacket, encode, decode, encode_header, validate,
  eq_packet_type,
}
use teamview.Protocol.Packet.RoundTrip.{
  Fits, extended_header, encode-ok_iff, decode-extended_header, decode-encode, length-encode,
}
use teamview.Protocol.Packet.Decoding.{Yields, IsPacketOf, decode-Yields, encode-decode}
use teamview.Protocol.Frame.{
  EncodedFrame, packetize_frame_with_type, reassemble_frame, fragment_count_of,
}
use teamview.Protocol.Frame.Order.{Distinct, AllValid, reassemble_frame-perm}
use teamview.Protocol.Frame.Reassembly.{IsMedia, reassemble-packetize}
use teamview.Protocol.Stats.{PipelineLatencyStats, estimated_total_ms, estimated_total_ms_lem}
use teamview.Protocol.Tests.BigEndian.{big_endian, big_endian_laws}

abbrev header_at : ℕ → ℕ → ℕ → MediaPacketHeader
header_at index count size = record {
  version = 1;
  packet_type = PacketType.video;
  flags = 1;
  room_stream_id = 7;
  sequence_number = 40;
  frame_id = 3;
  fragment_index = index;
  fragment_count = count;
  media_timestamp = 9000;
  sender_capture_time_micros = 1000;
  sender_clock_offset_micros = negsuc 4;
  sender_encode_done_time_micros = 1100;
  sender_send_time_micros = 1200;
  server_receive_time_micros = 0;
  server_send_time_micros = 0;
  codec = CodecId.h264;
  layer = 0;
  payload_length = size;
}

abbrev packet : MediaPacket
packet = record { header = header_at 0 2 3; payload = 10 ∷ 20 ∷ 30 ∷ [] }

abbrev other_packet : MediaPacket
other_packet = record { header = header_at 1 2 1; payload = 40 ∷ [] }

packet-Fits : Fits packet.header
packet-Fits = record {
  version = omega arith;
  flags = omega arith;
  room_stream_id = omega arith;
  sequence_number = omega arith;
  frame_id = omega arith;
  fragment_index = omega arith;
  fragment_count = omega arith;
  media_timestamp = omega arith;
  sender_capture_time_micros = omega arith;
  sender_clock_offset_micros = omega arith;
  sender_encode_done_time_micros = omega arith;
  sender_send_time_micros = omega arith;
  server_receive_time_micros = omega arith;
  server_send_time_micros = omega arith;
  layer = omega arith;
  payload_length = omega arith;
}

abbrev datagram : List ℕ
datagram = encode_header big_endian packet.header ++ packet.payload

packet_valid : validate packet.header ≡ ok tt
unfolding validate
packet_valid = refl

other_packet_valid : validate other_packet.header ≡ ok tt
unfolding validate
other_packet_valid = refl

encode-packet : encode big_endian packet ≡ ok datagram
encode-packet = (encode-ok_iff big_endian packet datagram).1 (omega arith, refl, packet_valid, refl)

decode-encode_example : decode big_endian datagram ≡ ok packet
decode-encode_example = decode-encode big_endian_laws packet packet-Fits datagram refl encode-packet

-- A header of two more bytes.
decode-extended_header_example :
    decode big_endian (extended_header big_endian packet.header 83 ((5 ∷ 6 ∷ []) ++ packet.payload))
    ≡ ok packet
decode-extended_header_example =
    decode-extended_header big_endian_laws packet packet-Fits 83 (5 ∷ 6 ∷ []) refl packet_valid refl
      refl (omega arith)

decode-Yields_example : Yields (IsPacketOf datagram) (decode big_endian datagram)
decode-Yields_example = decode-Yields big_endian_laws datagram

encode-decode_example :
    (encode big_endian packet ≡ ok (encode_header big_endian packet.header ++ packet.payload))
    × (decode big_endian (encode_header big_endian packet.header ++ packet.payload) ≡ ok packet)
encode-decode_example =
    encode-decode big_endian_laws datagram packet
      (decode-encode big_endian_laws packet packet-Fits datagram refl encode-packet)

abbrev frame : EncodedFrame
frame = record {
  room_stream_id = 7;
  frame_id = 3;
  media_timestamp = 9000;
  sender_capture_time_micros = 1000;
  sender_clock_offset_micros = negsuc 4;
  sender_encode_done_time_micros = 1100;
  sender_send_time_micros = 1200;
  server_receive_time_micros = 0;
  server_send_time_micros = 0;
  codec = CodecId.h264;
  is_keyframe = true;
  bytes = 1 ∷ 2 ∷ 3 ∷ 4 ∷ 5 ∷ [];
}

frame_fits : fragment_count_of frame 2 ≤ 65535
unfolding fragment_count_of
frame_fits = omega arith

reassemble-packetize_example :
    (ps : List MediaPacket) × (packetize_frame_with_type big_endian frame PacketType.video
        4294967295 2
      ≡ ok ps)
    × ((qs : List MediaPacket) → Perm ps qs → reassemble_frame qs ≡ ok frame)
unfolding eq_packet_type
reassemble-packetize_example =
    reassemble-packetize big_endian frame PacketType.video 4294967295 2 (omega arith) (omega arith)
      frame_fits refl

swapped : Perm (packet ∷ other_packet ∷ []) (other_packet ∷ packet ∷ [])
swapped = ∣ Permᴰ.swap refl refl ∣₁

reassemble_frame-perm_example :
    reassemble_frame (other_packet ∷ packet ∷ []) ≡ reassemble_frame (packet ∷ other_packet ∷ [])
reassemble_frame-perm_example =
    reassemble_frame-perm (packet ∷ other_packet ∷ []) (other_packet ∷ packet ∷ [])
      (((λ e. absurd (omega arith)), tt), (tt, tt)) (packet_valid, (other_packet_valid, tt)) swapped

abbrev latencies : PipelineLatencyStats
latencies = record {
  capture_ms = 1;
  encode_ms = 2;
  server_route_ms = 3;
  jitter_buffer_ms = 65000;
  decode_ms = 500;
  render_ms = 600;
}

estimated_total_ms_example :
    estimated_total_ms latencies
    ≡ min
        (latencies.capture_ms + latencies.encode_ms + latencies.server_route_ms
          + latencies.jitter_buffer_ms + latencies.decode_ms + latencies.render_ms)
        65535
estimated_total_ms_example = estimated_total_ms_lem latencies
