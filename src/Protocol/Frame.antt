-- ===== src/Protocol/Frame.antt =====
-- crates/protocol/src/frame.rs: cutting an encoded frame into media packets, and putting the packets
-- of a frame together again.
pub mod Fragments
pub mod Merging
pub mod Reassembly
pub mod Order
use teamview.Prelude.{
  ℕ, zero, suc, ◌+◌, ◌-◌, ◌*◌, ◌/◌, ◌%◌, ◌^◌, min, max, Bool, true, false, not, xor, ◌&&◌, ◌||◌,
  List, [], ◌∷◌, ◌++◌, ◌==◌, ltb, leb, if◌then◌else◌, length, take, drop, Option, none, some,
}
use teamview.Prelude.Int.{ℤ, eq_ℤ}
use teamview.Prelude.Result.{Result, ok, err, panic, ◌>>=◌, ◌>>◌, guard, need, map_err}
use teamview.Protocol.Codec.{CodecId, eq_codec}
use teamview.Protocol.Wire.{Wire}
use teamview.Protocol.Packet.{
  PacketType, MediaPacketHeader, MediaPacket, PacketFlags, PacketDecodeError, PacketEncodeError,
  eq_packet_type, contains_flag, with_flag, empty_flags, keyframe, end_of_frame, new_header,
  validate, encode, media_packet_header_len,
}

pub record EncodedFrame : Type 0 where
  pub room_stream_id : ℕ
  pub frame_id : ℕ
  pub media_timestamp : ℕ
  pub sender_capture_time_micros : ℕ
  pub sender_clock_offset_micros : ℤ
  pub sender_encode_done_time_micros : ℕ
  pub sender_send_time_micros : ℕ
  pub server_receive_time_micros : ℕ
  pub server_send_time_micros : ℕ
  pub codec : CodecId
  pub is_keyframe : Bool
  pub bytes : List ℕ

pub data FramePacketizeError : Type 0 where
  zero_max_payload : FramePacketizeError
  payload_too_large : ℕ → FramePacketizeError
  datagram_too_small : FramePacketizeError
  too_many_fragments : ℕ → FramePacketizeError
  packet_encode : PacketEncodeError → FramePacketizeError

-- `usize::div_ceil`
abbrev pub div_ceil : ℕ → ℕ → ℕ
div_ceil a b = (a + b - 1) / b

-- `frame.bytes.slice(start..end)`, which panics on a range that is not inside the bytes.
unfoldable pub slice : ℕ → ℕ → List ℕ → Option (List ℕ)
slice start stop bytes =
    if leb start stop && leb stop (length bytes)
    then some (take (stop - start) (drop start bytes))
    else none

unfoldable pub fragment_count_of : EncodedFrame → ℕ → ℕ
fragment_count_of frame max_payload = max (div_ceil (length frame.bytes) max_payload) 1

-- The payload of one fragment.
unfoldable pub fragment_payload : EncodedFrame → ℕ → ℕ → Option (List ℕ)
unfolding slice
fragment_payload frame max_payload index =
    let start = index * max_payload in
    let stop = min ((index + 1) * max_payload) (length frame.bytes) in
    if start == stop then some [] else slice start stop frame.bytes

unfoldable pub fragment_flags : EncodedFrame → ℕ → ℕ → PacketFlags
unfolding with_flag
fragment_flags frame count index =
    let flags = if frame.is_keyframe then with_flag empty_flags keyframe else empty_flags in
    if index + 1 == count then with_flag flags end_of_frame else flags

-- The packet of one fragment: `as u16` and `as u32` keep the low bits.
unfoldable pub fragment_packet : EncodedFrame → PacketType → ℕ → ℕ → ℕ → List ℕ → MediaPacket
unfolding new_header
fragment_packet frame packet_type first_sequence_number count index payload = record {
  header =
      record (new_header packet_type frame.codec frame.room_stream_id
        ((first_sequence_number + index % 2 ^ 32) % 2 ^ 32) (length payload % 2 ^ 16)) {
          flags = fragment_flags frame count index;
          frame_id = frame.frame_id;
          fragment_index = index % 2 ^ 16;
          fragment_count = count % 2 ^ 16;
          media_timestamp = frame.media_timestamp;
          sender_capture_time_micros = frame.sender_capture_time_micros;
          sender_clock_offset_micros = frame.sender_clock_offset_micros;
          sender_encode_done_time_micros = frame.sender_encode_done_time_micros;
          sender_send_time_micros = frame.sender_send_time_micros;
          server_receive_time_micros = frame.server_receive_time_micros;
          server_send_time_micros = frame.server_send_time_micros;
        };
  payload = payload;
}

-- The loop over the fragments: `rounds` are left, and the next has the given index.
unfoldable pub packetize_loop :
    Wire
    → EncodedFrame
    → PacketType
    → ℕ
    → ℕ
    → ℕ
    → ℕ
    → ℕ
    → Result FramePacketizeError (List MediaPacket)
packetize_loop w frame t first max_payload count zero index = ok []
packetize_loop w frame t first max_payload count (suc rounds) index = do
  payload ← need (fragment_payload frame max_payload index)
  encoded ←
      map_err FramePacketizeError.packet_encode
        (encode w (fragment_packet frame t first count index payload))
  rest ← packetize_loop w frame t first max_payload count rounds (index + 1)
  ok (fragment_packet frame t first count index payload ∷ rest)

unfoldable pub packetize_frame_with_type :
    Wire → EncodedFrame → PacketType → ℕ → ℕ → Result FramePacketizeError (List MediaPacket)
packetize_frame_with_type w frame packet_type first_sequence_number max_payload = do
  guard (not (max_payload == 0)) FramePacketizeError.zero_max_payload
  guard (leb max_payload 65535) (FramePacketizeError.payload_too_large max_payload)
  let count = fragment_count_of frame max_payload
  guard (leb count 65535) (FramePacketizeError.too_many_fragments count)
  packetize_loop w frame packet_type first_sequence_number max_payload count count 0

unfoldable pub packetize_frame :
    Wire → EncodedFrame → ℕ → ℕ → Result FramePacketizeError (List MediaPacket)
packetize_frame w frame first_sequence_number max_payload =
    packetize_frame_with_type w frame PacketType.video first_sequence_number max_payload

unfoldable pub packetize_frame_with_type_for_datagram_target :
    Wire → EncodedFrame → PacketType → ℕ → ℕ → Result FramePacketizeError (List MediaPacket)
packetize_frame_with_type_for_datagram_target w frame packet_type first max_datagram_payload = do
  guard (ltb media_packet_header_len max_datagram_payload) FramePacketizeError.datagram_too_small
  packetize_frame_with_type w frame packet_type first
      (max_datagram_payload - media_packet_header_len)

unfoldable pub packetize_frame_for_datagram_target :
    Wire → EncodedFrame → ℕ → ℕ → Result FramePacketizeError (List MediaPacket)
packetize_frame_for_datagram_target w frame first max_datagram_payload = do
  guard (ltb media_packet_header_len max_datagram_payload) FramePacketizeError.datagram_too_small
  packetize_frame_with_type_for_datagram_target w frame PacketType.video first max_datagram_payload

pub data FrameReassemblyError : Type 0 where
  no_packets : FrameReassemblyError
  missing_fragment : ℕ → FrameReassemblyError
  duplicate_fragment : ℕ → FrameReassemblyError
  fragment_metadata_mismatch : FrameReassemblyError
  fragment_count_mismatch : FrameReassemblyError
  invalid_end_of_frame_flag : ℕ → FrameReassemblyError
  invalid_packet_header : PacketDecodeError → FrameReassemblyError

-- The index that the packets are sorted by.
abbrev pub index_of : MediaPacket → ℕ
index_of p = p.header.fragment_index

unfoldable pub insert_packet : MediaPacket → List MediaPacket → List MediaPacket
insert_packet p [] = p ∷ []
insert_packet p (q ∷ qs) =
    let rest = insert_packet p qs in if leb (index_of p) (index_of q) then p ∷ q ∷ qs else q ∷ rest

-- `sort_by_key(|packet| packet.header.fragment_index)`: a stable sort.
unfoldable pub sort_packets : List MediaPacket → List MediaPacket
unfolding insert_packet
sort_packets [] = []
sort_packets (p ∷ ps) = insert_packet p (sort_packets ps)

-- `for packet in &packets { packet.header.validate()?; }`
unfoldable pub validate_all : List MediaPacket → Result FrameReassemblyError (Unit {0})
validate_all [] = ok tt
validate_all (p ∷ ps) = do
  map_err FrameReassemblyError.invalid_packet_header (validate p.header)
  validate_all ps

unfoldable pub min_nonzero : ℕ → ℕ → ℕ
min_nonzero left right = if left == 0 then right else (if right == 0 then left else min left right)

-- What the packets of one frame have in common.
unfoldable pub metadata_differs : MediaPacketHeader → MediaPacketHeader → Bool
unfolding eq_codec eq_packet_type contains_flag
metadata_differs h first =
    not (h.fragment_count == first.fragment_count)
    || (not (h.frame_id == first.frame_id)
        || (not (h.room_stream_id == first.room_stream_id)
            || (not (eq_codec h.codec first.codec)
                || (not (eq_packet_type h.packet_type first.packet_type)
                    || (not (h.layer == first.layer)
                        || (not (h.media_timestamp == first.media_timestamp)
                            || (not
                                  (h.sender_capture_time_micros == first.sender_capture_time_micros)
                                || (not (
                                      eq_ℤ h.sender_clock_offset_micros
                                        first.sender_clock_offset_micros)
                                    || xor (contains_flag h.flags keyframe)
                                        (contains_flag first.flags keyframe)))))))))

-- The variables of the loop.
pub record Assembly : Type 0 where
  pub encode_done : ℕ
  pub send : ℕ
  pub server_receive : ℕ
  pub server_send : ℕ
  pub bytes : List ℕ
  pub previous : Option ℕ

-- `previous_fragment_index == Some(fragment_index)`
unfoldable pub is_some_of : Option ℕ → ℕ → Bool
is_some_of none i = false
is_some_of (some j) i = j == i

unfoldable pub merge_packet : Assembly → MediaPacket → Assembly
unfolding min_nonzero
merge_packet a p = record {
  encode_done = max a.encode_done p.header.sender_encode_done_time_micros;
  send = max a.send p.header.sender_send_time_micros;
  server_receive = min_nonzero a.server_receive p.header.server_receive_time_micros;
  server_send = max a.server_send p.header.server_send_time_micros;
  bytes = a.bytes ++ p.payload;
  previous = some p.header.fragment_index;
}

-- The loop over the sorted packets; `expected` is the index of the next one.
unfoldable pub assemble :
    MediaPacketHeader → ℕ → Assembly → List MediaPacket → Result FrameReassemblyError Assembly
unfolding is_some_of metadata_differs merge_packet contains_flag
assemble first expected a [] = ok a
assemble first expected a (p ∷ ps) = do
  let index = p.header.fragment_index
  guard (not (is_some_of a.previous index)) (FrameReassemblyError.duplicate_fragment index)
  guard (index == expected % 2 ^ 16) (FrameReassemblyError.missing_fragment (expected % 2 ^ 16))
  guard (not (metadata_differs p.header first)) FrameReassemblyError.fragment_metadata_mismatch
  guard
      (not (xor (contains_flag p.header.flags end_of_frame) (expected + 1 == first.fragment_count)))
      (FrameReassemblyError.invalid_end_of_frame_flag index)
  assemble first (expected + 1) (merge_packet a p) ps

-- The frame of the sorted packets, from the first of them on.
unfoldable pub assemble_sorted : List MediaPacket → Result FrameReassemblyError EncodedFrame
unfolding contains_flag min_nonzero eq_packet_type
assemble_sorted [] = panic
assemble_sorted (p ∷ ps) = do
  let first = p.header
  guard
      (eq_packet_type first.packet_type PacketType.video
        || eq_packet_type first.packet_type PacketType.audio)
      FrameReassemblyError.fragment_metadata_mismatch
  guard (length (p ∷ ps) == first.fragment_count) FrameReassemblyError.fragment_count_mismatch
  a ←
      assemble first 0
        (record {
          encode_done = first.sender_encode_done_time_micros;
          send = first.sender_send_time_micros;
          server_receive = min_nonzero first.server_receive_time_micros 0;
          server_send = first.server_send_time_micros;
          bytes = [];
          previous = none;
        })
        (p ∷ ps)
  ok (record {
    room_stream_id = first.room_stream_id;
    frame_id = first.frame_id;
    media_timestamp = first.media_timestamp;
    sender_capture_time_micros = first.sender_capture_time_micros;
    sender_clock_offset_micros = first.sender_clock_offset_micros;
    sender_encode_done_time_micros = a.encode_done;
    sender_send_time_micros = a.send;
    server_receive_time_micros = a.server_receive;
    server_send_time_micros = a.server_send;
    codec = first.codec;
    is_keyframe = contains_flag first.flags keyframe;
    bytes = a.bytes;
  })

unfoldable pub is_empty : List MediaPacket → Bool
is_empty [] = true
is_empty (p ∷ ps) = false

unfoldable pub reassemble_frame : List MediaPacket → Result FrameReassemblyError EncodedFrame
unfolding is_empty
reassemble_frame packets = do
  guard (not (is_empty packets)) FrameReassemblyError.no_packets
  validate_all packets
  assemble_sorted (sort_packets packets)
