-- ===== src/Protocol/Packet/RoundTrip.antt =====
-- Encoding a media packet and decoding it again, for crates/protocol/src/packet.rs.
use mathlib.Core.List.{append_assoc}
use teamview.Prelude.{
  ℕ, ◌+◌, ◌-◌, ◌≤◌, ◌<◌, ◌^◌, ◌≡◌, ◌↔◌, sym, ◌∙◌, List, [], ◌++◌, length, length-append, drop,
  drop-append, take_of_length-le, le→leb, eq→==, arith,
}
use teamview.Prelude.Int.{IsI64}
use teamview.Prelude.Result.{ok}
use teamview.Protocol.Codec.{CodecId, u8_of_codec, codec_of_u8-u8_of_codec, protocol_version}
use teamview.Protocol.Wire.{Wire, WireLaws}
use teamview.Protocol.Packet.{
  MediaPacketHeader, MediaPacket, PacketType, packet_type_of_u8, u8_of_packet_type, encode_header,
  validate, decode_fields, decode_header, encode, decode,
}

-- Every field is a value of its Rust type.
pub record Fits (h : MediaPacketHeader) : Type 0 where
  pub version : h.version < 2 ^ 8
  pub flags : h.flags < 2 ^ 8
  pub room_stream_id : h.room_stream_id < 2 ^ 32
  pub sequence_number : h.sequence_number < 2 ^ 32
  pub frame_id : h.frame_id < 2 ^ 32
  pub fragment_index : h.fragment_index < 2 ^ 16
  pub fragment_count : h.fragment_count < 2 ^ 16
  pub media_timestamp : h.media_timestamp < 2 ^ 64
  pub sender_capture_time_micros : h.sender_capture_time_micros < 2 ^ 64
  pub sender_clock_offset_micros : IsI64 h.sender_clock_offset_micros
  pub sender_encode_done_time_micros : h.sender_encode_done_time_micros < 2 ^ 64
  pub sender_send_time_micros : h.sender_send_time_micros < 2 ^ 64
  pub server_receive_time_micros : h.server_receive_time_micros < 2 ^ 64
  pub server_send_time_micros : h.server_send_time_micros < 2 ^ 64
  pub layer : h.layer < 2 ^ 8
  pub payload_length : h.payload_length < 2 ^ 16

-- The fields behind the header length, as `encode_header` writes them.
abbrev field_bytes : Wire → MediaPacketHeader → List ℕ → List ℕ
field_bytes w h rest =
    w.u32.put h.room_stream_id
    ++ (w.u32.put h.sequence_number
        ++ (w.u32.put h.frame_id
            ++ (w.u16.put h.fragment_index
                ++ (w.u16.put h.fragment_count
                    ++ (w.u64.put h.media_timestamp
                        ++ (w.u64.put h.sender_capture_time_micros
                            ++ (w.i64.put h.sender_clock_offset_micros
                                ++ (w.u64.put h.sender_encode_done_time_micros
                                    ++ (w.u64.put h.sender_send_time_micros
                                        ++ (w.u64.put h.server_receive_time_micros
                                            ++ (w.u64.put h.server_send_time_micros
                                                ++ (w.u8.put (u8_of_codec h.codec)
                                                    ++ (w.u8.put h.layer
                                                        ++ (w.u16.put h.payload_length
                                                            ++ rest))))))))))))))

-- A header as a later version of the protocol may write it: its length field says `len`, and `ext`
-- stands behind the fields that this version knows.
abbrev pub extended_header : Wire → MediaPacketHeader → ℕ → List ℕ → List ℕ
extended_header w h len ext =
    w.u8.put h.version
    ++ (w.u8.put (u8_of_packet_type h.packet_type)
        ++ (w.u8.put h.flags ++ (w.u16.put len ++ field_bytes w h ext)))

u8_of_codec-IsU8 : (c : CodecId) → u8_of_codec c < 2 ^ 8
unfolding u8_of_codec
u8_of_codec-IsU8 c = ground arith

packet_type_of_u8-u8_of_packet_type :
    (t : PacketType) → packet_type_of_u8 (u8_of_packet_type t) ≡ ok t
unfolding packet_type_of_u8 u8_of_packet_type
packet_type_of_u8-u8_of_packet_type t = ground arith

u8_of_packet_type-IsU8 : (t : PacketType) → u8_of_packet_type t < 2 ^ 8
unfolding u8_of_packet_type
u8_of_packet_type-IsU8 t = ground arith

module _ {w : Wire} (laws : WireLaws w) (h : MediaPacketHeader) (fits : Fits h) where
  open laws use {u8_laws, u16_laws, u32_laws, u64_laws, i64_laws}

  decode_fields-field_bytes :
      (rest : List ℕ)
      → decode_fields w h.version h.packet_type h.flags (field_bytes w h rest) ≡ ok h
  unfolding decode_fields
  decode_fields-field_bytes rest = rw (
    u32_laws.get-put h.room_stream_id _ fits.room_stream_id,
    u32_laws.get-put h.sequence_number _ fits.sequence_number,
    u32_laws.get-put h.frame_id _ fits.frame_id,
    u16_laws.get-put h.fragment_index _ fits.fragment_index,
    u16_laws.get-put h.fragment_count _ fits.fragment_count,
    u64_laws.get-put h.media_timestamp _ fits.media_timestamp,
    u64_laws.get-put h.sender_capture_time_micros _ fits.sender_capture_time_micros,
    i64_laws.get-put h.sender_clock_offset_micros _ fits.sender_clock_offset_micros,
    u64_laws.get-put h.sender_encode_done_time_micros _ fits.sender_encode_done_time_micros,
    u64_laws.get-put h.sender_send_time_micros _ fits.sender_send_time_micros,
    u64_laws.get-put h.server_receive_time_micros _ fits.server_receive_time_micros,
    u64_laws.get-put h.server_send_time_micros _ fits.server_send_time_micros,
    u8_laws.get-put (u8_of_codec h.codec) _ (u8_of_codec-IsU8 h.codec),
    codec_of_u8-u8_of_codec h.codec,
    u8_laws.get-put h.layer _ fits.layer,
    u16_laws.get-put h.payload_length _ fits.payload_length,
  )

  length-field_bytes : (rest : List ℕ) → length (field_bytes w h rest) ≡ 76 + length rest
  length-field_bytes rest =
      simp
        (
          length-append,
          u32_laws.length-put _ fits.room_stream_id,
          u32_laws.length-put _ fits.sequence_number,
          u32_laws.length-put _ fits.frame_id,
          u16_laws.length-put _ fits.fragment_index,
          u16_laws.length-put _ fits.fragment_count,
          u64_laws.length-put _ fits.media_timestamp,
          u64_laws.length-put _ fits.sender_capture_time_micros,
          i64_laws.length-put _ fits.sender_clock_offset_micros,
          u64_laws.length-put _ fits.sender_encode_done_time_micros,
          u64_laws.length-put _ fits.sender_send_time_micros,
          u64_laws.length-put _ fits.server_receive_time_micros,
          u64_laws.length-put _ fits.server_send_time_micros,
          u8_laws.length-put _ (u8_of_codec-IsU8 h.codec),
          u8_laws.length-put _ fits.layer,
          u16_laws.length-put _ fits.payload_length,
        )
        (omega arith)

  length-extended_header :
      (len : ℕ) (rest : List ℕ)
      → len < 2 ^ 16
      → length (extended_header w h len rest) ≡ 81 + length rest
  length-extended_header len rest fit =
      rw
        (
          length-append (w.u8.put h.version),
          length-append (w.u8.put (u8_of_packet_type h.packet_type)),
          length-append (w.u8.put h.flags),
          length-append (w.u16.put len),
          length-field_bytes rest,
          u8_laws.length-put h.version fits.version,
          u8_laws.length-put _ (u8_of_packet_type-IsU8 h.packet_type),
          u8_laws.length-put h.flags fits.flags,
          u16_laws.length-put len fit,
        )
        (omega arith)

  decode_header-extended_header :
      (len : ℕ) (rest : List ℕ)
      → h.version ≡ protocol_version
      → validate h ≡ ok tt
      → 81 ≤ len
      → len < 2 ^ 16
      → len ≤ 81 + length rest
      → decode_header w (extended_header w h len rest)
        ≡ ok (record { header = h; payload_offset = len })
  unfolding decode_header
  decode_header-extended_header len rest current valid low fit there =
      let size = length-extended_header len rest fit in
      rw (
        le→leb 81 (length (extended_header w h len rest)) (omega arith),
        u8_laws.get-put h.version _ fits.version,
        eq→== h.version protocol_version current,
        u8_laws.get-put _ _ (u8_of_packet_type-IsU8 h.packet_type),
        packet_type_of_u8-u8_of_packet_type h.packet_type,
        u8_laws.get-put h.flags _ fits.flags,
        u16_laws.get-put len _ fit,
        le→leb 81 len low,
        le→leb len (length (extended_header w h len rest)) (omega arith),
        decode_fields-field_bytes rest,
        valid,
      )

  encode_header-extended : (rest : List ℕ) → encode_header w h ++ rest ≡ extended_header w h 81 rest
  unfolding encode_header
  encode_header-extended rest = simp append_assoc

  extended_header-append :
      (len : ℕ) (ext rest : List ℕ)
      → extended_header w h len (ext ++ rest) ≡ extended_header w h len ext ++ rest
  extended_header-append len ext rest = simp append_assoc

  drop-extended_header :
      (len : ℕ) (ext rest : List ℕ)
      → len < 2 ^ 16
      → len ≡ 81 + length ext
      → drop len (extended_header w h len (ext ++ rest)) ≡ rest
  drop-extended_header len ext rest fit e =
      rw (extended_header-append len ext rest)
        (drop-append _ _ _ (e ∙ sym (length-extended_header len ext fit)))

-- `encode` gives bytes exactly for the packets whose payload is at most 65535 bytes, whose header
-- says the payload's length, and whose header is valid; the bytes are those of the header, then the
-- payload.
pub encode-ok_iff :
    (w : Wire) (p : MediaPacket) (bytes : List ℕ)
    → (encode w p ≡ ok bytes) ↔ (
        (length p.payload ≤ 65535)
        × (p.header.payload_length ≡ length p.payload)
        × (validate p.header ≡ ok tt)
        × (bytes ≡ encode_header w p.header ++ p.payload))
unfolding encode
encode-ok_iff w p bytes = (λ e. ground arith, λ h. ground arith)

module _ {w : Wire} (laws : WireLaws w) (p : MediaPacket) (fits : Fits p.header) where
  -- Given the laws of the integer encodings, a valid packet of this version whose fields are in
  -- range and whose header says the payload's length is read from any header of 81 bytes or more
  -- that fits the 16-bit length field: what stands behind the fields of this version is skipped.
  pub decode-extended_header :
      (len : ℕ) (ext : List ℕ)
      → p.header.version ≡ protocol_version
      → validate p.header ≡ ok tt
      → p.header.payload_length ≡ length p.payload
      → len ≡ 81 + length ext
      → len < 2 ^ 16
      → decode w (extended_header w p.header len (ext ++ p.payload)) ≡ ok p
  unfolding decode
  decode-extended_header len ext current valid says e fit =
      let size = length-extended_header laws p.header fits len (ext ++ p.payload) fit in
      let parts = length-append ext p.payload in
      rw (
        decode_header-extended_header laws p.header fits len (ext ++ p.payload) current valid
            (omega arith) fit (omega arith),
        le→leb (len + p.header.payload_length)
            (length (extended_header w p.header len (ext ++ p.payload))) (omega arith),
        le→leb (length (extended_header w p.header len (ext ++ p.payload)))
            (len + p.header.payload_length) (omega arith),
        drop-extended_header laws p.header fits len ext p.payload fit e,
        take_of_length-le (len + p.header.payload_length - len) p.payload (omega arith),
      )

  -- Given the laws of the integer encodings, a packet of this version whose fields are in range is
  -- read back by `decode` from what `encode` gives for it.
  pub decode-encode :
      (bytes : List ℕ)
      → p.header.version ≡ protocol_version
      → encode w p ≡ ok bytes
      → decode w bytes ≡ ok p
  decode-encode bytes current e =
      let (small, says, valid, same) = (encode-ok_iff w p bytes).0 e in
      rw (same, encode_header-extended laws p.header fits p.payload)
        (decode-extended_header 81 [] current valid says (omega arith) (omega arith))

  -- An encoded packet is 81 bytes longer than its payload.
  pub length-encode :
      (bytes : List ℕ) → encode w p ≡ ok bytes → length bytes ≡ 81 + length p.payload
  length-encode bytes e =
      let (small, says, valid, same) = (encode-ok_iff w p bytes).0 e in
      rw (same, encode_header-extended laws p.header fits p.payload)
        (length-extended_header laws p.header fits 81 p.payload (omega arith))
