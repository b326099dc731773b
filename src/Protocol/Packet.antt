-- ===== src/Protocol/Packet.antt =====
-- crates/protocol/src/packet.rs: the media packet header, its encoding, its checks and its decoding.
pub mod RoundTrip
pub mod Decoding
use Prim.Native.Nat.{bit_and, bit_or}
use teamview.Prelude.{
  ℕ, ◌+◌, ◌-◌, ◌≡◌, ◌<◌, ◌^◌, Bool, true, false, not, ◌&&◌, List, ◌++◌, ◌==◌, ltb, leb,
  if◌then◌else◌, length, take, drop, arith, refl, ◌↔◌,
}
use teamview.Prelude.Int.{ℤ, pos}
use teamview.Prelude.Result.{Result, ok, err, panic, ◌>>=◌, ◌>>◌, guard, need, map_err}
use teamview.Protocol.Codec.{
  CodecId, UnknownCodec, codec_of_u8, u8_of_codec, eq_codec, protocol_version,
}
use teamview.Protocol.Wire.{Wire}

abbrev pub media_packet_header_len : ℕ
media_packet_header_len = 81

abbrev pub default_datagram_payload_target : ℕ
default_datagram_payload_target = 1150

pub data PacketType : Type 0 where
  video audio probe : PacketType

-- A flag set is its byte.
abbrev pub PacketFlags : Type 0
PacketFlags = ℕ

abbrev pub keyframe : ℕ
keyframe = 1

abbrev pub end_of_frame : ℕ
end_of_frame = 2

abbrev pub config : ℕ
config = 4

abbrev pub discardable : ℕ
discardable = 8

abbrev pub empty_flags : PacketFlags
empty_flags = 0

unfoldable pub contains_flag : PacketFlags → ℕ → Bool
contains_flag flags flag = not (bit_and flags flag == 0)

unfoldable pub with_flag : PacketFlags → ℕ → PacketFlags
with_flag flags flag = bit_or flags flag

pub record MediaPacketHeader : Type 0 where
  pub version : ℕ
  pub packet_type : PacketType
  pub flags : PacketFlags
  pub room_stream_id : ℕ
  pub sequence_number : ℕ
  pub frame_id : ℕ
  pub fragment_index : ℕ
  pub fragment_count : ℕ
  pub media_timestamp : ℕ
  pub sender_capture_time_micros : ℕ
  pub sender_clock_offset_micros : ℤ
  pub sender_encode_done_time_micros : ℕ
  pub sender_send_time_micros : ℕ
  pub server_receive_time_micros : ℕ
  pub server_send_time_micros : ℕ
  pub codec : CodecId
  pub layer : ℕ
  pub payload_length : ℕ

pub data PacketDecodeError : Type 0 where
  too_short : (expected actual : ℕ) → PacketDecodeError
  payload_too_short : (expected actual : ℕ) → PacketDecodeError
  trailing_bytes : (expected actual : ℕ) → PacketDecodeError
  unsupported_version : ℕ → PacketDecodeError
  unsupported_header_length : ℕ → PacketDecodeError
  unknown_packet_type : ℕ → PacketDecodeError
  unknown_codec : ℕ → PacketDecodeError
  invalid_fragment : (fragment_index fragment_count : ℕ) → PacketDecodeError
  unsupported_layer : ℕ → PacketDecodeError
  invalid_packet_codec : PacketType → CodecId → PacketDecodeError

pub data PacketEncodeError : Type 0 where
  payload_too_large : ℕ → PacketEncodeError
  payload_length_mismatch : (header actual : ℕ) → PacketEncodeError
  invalid_header : PacketDecodeError → PacketEncodeError

-- `impl TryFrom<u8> for PacketType`
unfoldable pub packet_type_of_u8 : ℕ → Result PacketDecodeError PacketType
packet_type_of_u8 value =
    if value == 1
    then ok PacketType.video
    else (if value == 2
        then ok PacketType.audio
        else (if value == 3
            then ok PacketType.probe
            else err (PacketDecodeError.unknown_packet_type value)))

-- `impl From<PacketType> for u8`
unfoldable pub u8_of_packet_type : PacketType → ℕ
u8_of_packet_type PacketType.video = 1
u8_of_packet_type PacketType.audio = 2
u8_of_packet_type PacketType.probe = 3

-- The derived `PartialEq`.
unfoldable pub eq_packet_type : PacketType → PacketType → Bool
unfolding u8_of_packet_type
eq_packet_type a b = u8_of_packet_type a == u8_of_packet_type b

pub eq_packet_type_iff : (a b : PacketType) → (eq_packet_type a b ≡ true) ↔ (a ≡ b)
unfolding eq_packet_type
eq_packet_type_iff a b = ground arith

-- `MediaPacketHeader::new`
unfoldable pub new_header : PacketType → CodecId → ℕ → ℕ → ℕ → MediaPacketHeader
new_header packet_type codec room_stream_id sequence_number payload_length = record {
  version = protocol_version;
  packet_type = packet_type;
  flags = empty_flags;
  room_stream_id = room_stream_id;
  sequence_number = sequence_number;
  frame_id = 0;
  fragment_index = 0;
  fragment_count = 1;
  media_timestamp = 0;
  sender_capture_time_micros = 0;
  sender_clock_offset_micros = pos 0;
  sender_encode_done_time_micros = 0;
  sender_send_time_micros = 0;
  server_receive_time_micros = 0;
  server_send_time_micros = 0;
  codec = codec;
  layer = 0;
  payload_length = payload_length;
}

-- `MediaPacketHeader::encode`, as what it appends.
unfoldable pub encode_header : Wire → MediaPacketHeader → List ℕ
encode_header w h =
    w.u8.put h.version
    ++ (w.u8.put (u8_of_packet_type h.packet_type)
        ++ (w.u8.put h.flags
            ++ (w.u16.put media_packet_header_len
                ++ (w.u32.put h.room_stream_id
                    ++ (w.u32.put h.sequence_number
                        ++ (w.u32.put h.frame_id
                            ++ (w.u16.put h.fragment_index
                                ++ (w.u16.put h.fragment_count
                                    ++ (w.u64.put h.media_timestamp
                                        ++ (w.u64.put h.sender_capture_time_micros
                                            ++ (w.i64.put h.sender_clock_offset_micros
                                                ++ (w.u64.put h.sender_encode_done_time_micros
                                                    ++ (w.u64.put h.sender_send_time_micros
                                                        ++ (w.u64.put h.server_receive_time_micros
                                                            ++ (w.u64.put h.server_send_time_micros
                                                            ++ (w.u8.put (u8_of_codec h.codec)
                                                            ++ (w.u8.put h.layer
                                                            ++ w.u16.put
                                                            h.payload_length)))))))))))))))))

-- `MediaPacketHeader::validate`
unfoldable pub validate : MediaPacketHeader → Result PacketDecodeError (Unit {0})
unfolding eq_packet_type eq_codec
validate h = do
  guard (not (h.fragment_count == 0))
      (PacketDecodeError.invalid_fragment h.fragment_index h.fragment_count)
  guard (ltb h.fragment_index h.fragment_count)
      (PacketDecodeError.invalid_fragment h.fragment_index h.fragment_count)
  guard (h.layer == 0) (PacketDecodeError.unsupported_layer h.layer)
  guard (not (eq_packet_type h.packet_type PacketType.probe && not (eq_codec h.codec CodecId.h264)))
      (PacketDecodeError.invalid_packet_codec h.packet_type h.codec)

pub record DecodedMediaPacketHeader : Type 0 where
  pub header : MediaPacketHeader
  pub payload_offset : ℕ

-- The fields behind the header length, read in order, and the checks on them.
unfoldable pub decode_fields :
    Wire → ℕ → PacketType → PacketFlags → List ℕ → Result PacketDecodeError MediaPacketHeader
decode_fields w version packet_type flags buf = do
  (room_stream_id, buf) ← need (w.u32.get buf)
  (sequence_number, buf) ← need (w.u32.get buf)
  (frame_id, buf) ← need (w.u32.get buf)
  (fragment_index, buf) ← need (w.u16.get buf)
  (fragment_count, buf) ← need (w.u16.get buf)
  (media_timestamp, buf) ← need (w.u64.get buf)
  (sender_capture_time_micros, buf) ← need (w.u64.get buf)
  (sender_clock_offset_micros, buf) ← need (w.i64.get buf)
  (sender_encode_done_time_micros, buf) ← need (w.u64.get buf)
  (sender_send_time_micros, buf) ← need (w.u64.get buf)
  (server_receive_time_micros, buf) ← need (w.u64.get buf)
  (server_send_time_micros, buf) ← need (w.u64.get buf)
  (codec_id, buf) ← need (w.u8.get buf)
  codec ←
      map_err (λ (e : UnknownCodec). PacketDecodeError.unknown_codec e.value) (codec_of_u8 codec_id)
  (layer, buf) ← need (w.u8.get buf)
  (payload_length, buf) ← need (w.u16.get buf)
  ok (record {
    version = version;
    packet_type = packet_type;
    flags = flags;
    room_stream_id = room_stream_id;
    sequence_number = sequence_number;
    frame_id = frame_id;
    fragment_index = fragment_index;
    fragment_count = fragment_count;
    media_timestamp = media_timestamp;
    sender_capture_time_micros = sender_capture_time_micros;
    sender_clock_offset_micros = sender_clock_offset_micros;
    sender_encode_done_time_micros = sender_encode_done_time_micros;
    sender_send_time_micros = sender_send_time_micros;
    server_receive_time_micros = server_receive_time_micros;
    server_send_time_micros = server_send_time_micros;
    codec = codec;
    layer = layer;
    payload_length = payload_length;
  })

-- `MediaPacketHeader::decode`
unfoldable pub decode_header : Wire → List ℕ → Result PacketDecodeError DecodedMediaPacketHeader
decode_header w src = do
  guard (leb media_packet_header_len (length src))
      (PacketDecodeError.too_short media_packet_header_len (length src))
  (version, buf) ← need (w.u8.get src)
  guard (version == protocol_version) (PacketDecodeError.unsupported_version version)
  (type_id, buf) ← need (w.u8.get buf)
  packet_type ← packet_type_of_u8 type_id
  (flags, buf) ← need (w.u8.get buf)
  (header_length, buf) ← need (w.u16.get buf)
  guard (leb media_packet_header_len header_length)
      (PacketDecodeError.unsupported_header_length header_length)
  guard (leb header_length (length src)) (PacketDecodeError.too_short header_length (length src))
  header ← decode_fields w version packet_type flags buf
  validate header
  ok (record { header = header; payload_offset = header_length })

pub record MediaPacket : Type 0 where
  pub header : MediaPacketHeader
  pub payload : List ℕ

-- `MediaPacket::encode`
unfoldable pub encode : Wire → MediaPacket → Result PacketEncodeError (List ℕ)
encode w p = do
  guard (leb (length p.payload) 65535) (PacketEncodeError.payload_too_large (length p.payload))
  guard (p.header.payload_length == length p.payload)
      (PacketEncodeError.payload_length_mismatch p.header.payload_length (length p.payload))
  map_err PacketEncodeError.invalid_header (validate p.header)
  ok (encode_header w p.header ++ p.payload)

-- `MediaPacket::decode`; the last step is `src[payload_offset..expected_len]`.
unfoldable pub decode : Wire → List ℕ → Result PacketDecodeError MediaPacket
decode w src = do
  decoded ← decode_header w src
  let expected_len = decoded.payload_offset + decoded.header.payload_length
  guard (leb expected_len (length src))
      (PacketDecodeError.payload_too_short expected_len (length src))
  guard (leb (length src) expected_len) (PacketDecodeError.trailing_bytes expected_len (length src))
  ok (record {
    header = decoded.header;
    payload = take (expected_len - decoded.payload_offset) (drop decoded.payload_offset src);
  })
