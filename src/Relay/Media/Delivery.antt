-- ===== src/Relay/Media/Delivery.antt =====
-- What a viewer receives of a forwarded packet in crates/relay-server/src/media.rs.
use teamview.Prelude.{ℕ, ◌<◌, ◌^◌, ◌≤◌, ◌≡◌, refl, ◌∙◌, some, ◌++◌, List, max, arith}
use teamview.Prelude.Result.{ok}
use teamview.Protocol.Codec.{protocol_version}
use teamview.Protocol.Wire.{Wire, WireLaws}
use teamview.Protocol.Packet.{MediaPacket, validate, encode, decode, encode_header}
use teamview.Protocol.Packet.RoundTrip.{Fits, encode-ok_iff, decode-encode}
use teamview.Relay.Room.{PublishedStream}
use teamview.Relay.Media.{packet_for_egress, datagram_of, outgoing, packet_media_duration_ms}

-- The packet with the relay's two times in it.
abbrev pub with_server_times : MediaPacket → ℕ → ℕ → MediaPacket
with_server_times packet received_at sent_at = record packet {
  header = record packet.header {
    server_receive_time_micros = received_at;
    server_send_time_micros = sent_at;
  };
}

pub packet_media_duration_ms-bounds :
    (packet : MediaPacket) (published : PublishedStream) (budget : ℕ)
    → (1 ≤ packet_media_duration_ms packet published budget)
      × (packet_media_duration_ms packet published budget ≤ max budget 1)
unfolding packet_media_duration_ms
packet_media_duration_ms-bounds packet published budget = ground arith

-- The checks do not read the relay's times.
validate-with_server_times :
    (packet : MediaPacket) (received_at sent_at : ℕ)
    → validate (with_server_times packet received_at sent_at).header ≡ validate packet.header
unfolding validate
validate-with_server_times packet received_at sent_at = refl

module _ {w : Wire} (laws : WireLaws w) (packet : MediaPacket) (fits : Fits packet.header)
    (published : PublishedStream) where
  -- Given the laws of the integer encodings, what the send task sends for a packet of this version
  -- that can be encoded, with fields in range and times below 2^64, is decoded as the same packet
  -- but for the two times of the relay.
  pub decode-outgoing :
      (bytes : List ℕ) (budget received_at sent_at : ℕ)
      → packet.header.version ≡ protocol_version
      → encode w packet ≡ ok bytes
      → received_at < 2 ^ 64
      → sent_at < 2 ^ 64
      → (sent : List ℕ) × (outgoing w (datagram_of packet published budget received_at) sent_at
          ≡ some sent)
        × (decode w sent ≡ ok (with_server_times packet received_at sent_at))
  unfolding outgoing datagram_of packet_for_egress
  decode-outgoing bytes budget received_at sent_at current e r s =
      let out = with_server_times packet received_at sent_at in
      let (small, says, valid, same) = (encode-ok_iff w packet bytes).0 e in
      let sent = encode_header w out.header ++ packet.payload in
      let encoded : encode w out ≡ ok sent =
        (encode-ok_iff w out sent).1
          (small, says, validate-with_server_times packet received_at sent_at ∙ valid, refl) in
      let within : Fits out.header = record {
        version = fits.version;
        flags = fits.flags;
        room_stream_id = fits.room_stream_id;
        sequence_number = fits.sequence_number;
        frame_id = fits.frame_id;
        fragment_index = fits.fragment_index;
        fragment_count = fits.fragment_count;
        media_timestamp = fits.media_timestamp;
        sender_capture_time_micros = fits.sender_capture_time_micros;
        sender_clock_offset_micros = fits.sender_clock_offset_micros;
        sender_encode_done_time_micros = fits.sender_encode_done_time_micros;
        sender_send_time_micros = fits.sender_send_time_micros;
        layer = fits.layer;
        payload_length = fits.payload_length;
        server_receive_time_micros = r;
        server_send_time_micros = s;
      } in
      (sent, rw (outgoing, encoded), decode-encode laws out within sent current encoded)
