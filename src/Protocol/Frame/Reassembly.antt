-- ===== src/Protocol/Frame/Reassembly.antt =====
-- A frame that crates/protocol/src/frame.rs cut into packets is put together again.
use mathlib.Core.List.{Perm}
use teamview.Prelude.{
  ℕ, suc, ◌-◌, ◌≤◌, ◌<◌, ◌≡◌, ap, ◌∙◌, sym, subst, true, List, [], ◌∷◌, length, eq→==, Option, none,
  arith, ◌||◌,
}
use teamview.Prelude.Result.{ok}
use teamview.Protocol.Wire.{Wire}
use teamview.Protocol.Packet.{
  PacketType, MediaPacket, MediaPacketHeader, eq_packet_type, contains_flag, keyframe,
}
use teamview.Protocol.Frame.{
  EncodedFrame, fragment_count_of, fragment_packet, packetize_frame_with_type, min_nonzero,
  Assembly, assemble, assemble_sorted, is_empty, reassemble_frame,
}
use teamview.Protocol.Frame.Fragments.{
  chunk, fragments, payloads, CanCarry, packetize-fragments, fragment_count_bounds,
}
use teamview.Protocol.Frame.Merging.{
  keyframe-fragment_flags, merged, assemble-fragments, length-fragments, fragments-Ascending,
  fragments-AllValid,
}
use teamview.Protocol.Frame.Order.{
  Ascending, Ascending-Distinct, AllValid, sort_packets-Ascending, validate_all-AllValid,
  reassemble_frame-perm,
}

-- The packet types that carry frames.
abbrev pub IsMedia : PacketType → Type 0
IsMedia t = (eq_packet_type t PacketType.video || eq_packet_type t PacketType.audio) ≡ true

pub media-CanCarry : (t : PacketType) (frame : EncodedFrame) → IsMedia t → CanCarry t frame.codec
unfolding eq_packet_type
media-CanCarry t frame h = ground arith

abbrev start_of : MediaPacketHeader → Assembly
start_of h = record {
  encode_done = h.sender_encode_done_time_micros;
  send = h.sender_send_time_micros;
  server_receive = min_nonzero h.server_receive_time_micros 0;
  server_send = h.server_send_time_micros;
  bytes = [];
  previous = none;
}

abbrev frame_of : MediaPacketHeader → Assembly → EncodedFrame
frame_of h a = record {
  room_stream_id = h.room_stream_id;
  frame_id = h.frame_id;
  media_timestamp = h.media_timestamp;
  sender_capture_time_micros = h.sender_capture_time_micros;
  sender_clock_offset_micros = h.sender_clock_offset_micros;
  sender_encode_done_time_micros = a.encode_done;
  sender_send_time_micros = a.send;
  server_receive_time_micros = a.server_receive;
  server_send_time_micros = a.server_send;
  codec = h.codec;
  is_keyframe = contains_flag h.flags keyframe;
  bytes = a.bytes;
}

assemble_sorted-assemble :
    (p : MediaPacket) (ps : List MediaPacket) (a : Assembly)
    → IsMedia p.header.packet_type
    → length (p ∷ ps) ≡ p.header.fragment_count
    → assemble p.header 0 (start_of p.header) (p ∷ ps) ≡ ok a
    → assemble_sorted (p ∷ ps) ≡ ok (frame_of p.header a)
unfolding assemble_sorted
assemble_sorted-assemble p ps a media counted done =
    rw (media, eq→== (length (p ∷ ps)) p.header.fragment_count counted, done)

start_of-merged :
    (frame : EncodedFrame) (t : PacketType) (first count : ℕ) (xs : List ℕ)
    → start_of (fragment_packet frame t first count 0 xs).header ≡ merged frame [] none
unfolding min_nonzero fragment_packet
start_of-merged frame t first count xs = ground arith

frame_of-merged :
    (frame : EncodedFrame) (t : PacketType) (first count : ℕ) (xs bytes : List ℕ) (last : Option ℕ)
    → bytes ≡ frame.bytes
    → frame_of (fragment_packet frame t first count 0 xs).header (merged frame bytes last) ≡ frame
unfolding fragment_packet
frame_of-merged frame t first count xs bytes last e = rw (keyframe-fragment_flags frame count 0, e)

module _ (frame : EncodedFrame) (t : PacketType) (first m rounds : ℕ)
    (small : suc rounds ≤ 65535) where
  abbrev whole : List MediaPacket
  whole = fragments frame t first m (suc rounds) (suc rounds) 0

  assemble_sorted-fragments :
      IsMedia t → payloads whole ≡ frame.bytes → assemble_sorted whole ≡ ok frame
  unfolding fragments fragment_packet
  assemble_sorted-fragments media all =
      let xs = chunk frame m 0 in
      let (last, done) =
        assemble-fragments frame t first m (suc rounds) small (suc rounds) 0 [] xs none
          (omega arith) (λ e. cc) in
      assemble_sorted-assemble (fragment_packet frame t first (suc rounds) 0 xs)
        (fragments frame t first m (suc rounds) rounds 1) (merged frame (payloads whole) last) media
        (rw (length-fragments frame t first m (suc rounds) small rounds 1) (omega arith))
        (rw (start_of-merged frame t first (suc rounds) xs) done)
      ∙ ap ok (frame_of-merged frame t first (suc rounds) xs (payloads whole) last all)

reassemble_frame-sorted :
    (ps : List MediaPacket)
    → 0 < length ps
    → AllValid ps
    → Ascending 0 ps
    → reassemble_frame ps ≡ assemble_sorted ps
unfolding reassemble_frame is_empty
reassemble_frame-sorted [] h valid up = absurd (omega arith)
reassemble_frame-sorted (p ∷ ps) h valid up =
    rw (validate_all-AllValid (p ∷ ps) valid, sort_packets-Ascending 0 (p ∷ ps) up)

-- For a payload limit from 1 to 65535 and a frame that needs at most 65535 packets of it, cutting
-- the frame into video or audio packets succeeds, and `reassemble_frame` gives the frame back from
-- these packets in every order.
pub reassemble-packetize :
    (w : Wire) (frame : EncodedFrame) (t : PacketType) (first m : ℕ)
    → 0 < m
    → m ≤ 65535
    → fragment_count_of frame m ≤ 65535
    → IsMedia t
    → (ps : List MediaPacket) × (packetize_frame_with_type w frame t first m ≡ ok ps)
      × ((qs : List MediaPacket) → Perm ps qs → reassemble_frame qs ≡ ok frame)
reassemble-packetize w frame t first m pos_m small fit media =
    let count = fragment_count_of frame m in
    let (one, lo, hi) = fragment_count_bounds frame m pos_m in
    let carries = media-CanCarry t frame media in
    let (cut, all) = packetize-fragments w frame t first m pos_m small fit carries in
    let e : count ≡ suc (count - 1) = omega arith in
    let ps = fragments frame t first m count count 0 in
    let up = fragments-Ascending frame t first m count fit count 0 (omega arith) in
    let valid =
      fragments-AllValid frame t first m count fit pos_m small carries w count 0 (omega arith) in
    (
      ps,
      cut,
      λ qs perm.
          reassemble_frame-perm ps qs (Ascending-Distinct 0 ps up) valid perm
          ∙ reassemble_frame-sorted ps
              (omega (arith, length-fragments frame t first m count fit count 0)) valid up
          ∙ subst
              (λ n.
                payloads (fragments frame t first m n n 0) ≡ frame.bytes
                → n ≤ 65535
                → assemble_sorted (fragments frame t first m n n 0) ≡ ok frame)
              (sym e) (λ g l. assemble_sorted-fragments frame t first m (count - 1) l media g) all
              fit,
    )
