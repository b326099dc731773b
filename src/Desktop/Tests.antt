-- ===== src/Desktop/Tests.antt =====
-- Instances of the theorems about crates/desktop-client.
use mathlib.Core.List.{Perm}
use teamview.Prelude.{
  ℕ, ◌+◌, ◌≡◌, refl, true, some, List, [], ◌∷◌, length, map, max, min, none, ◌-◌, arith,
}
use teamview.Prelude.Int.{pos}
use teamview.Prelude.Result.{ok}
use teamview.Prelude.Words.{max_of}
use teamview.Protocol.Codec.{CodecId}
use teamview.Protocol.Packet.{PacketType, MediaPacket, eq_packet_type}
use teamview.Protocol.Frame.{EncodedFrame, fragment_count_of, packetize_frame_with_type}
use teamview.Protocol.Tests.BigEndian.{big_endian}
use teamview.Desktop.Decode.{FrameReassemblyBuffer, with_limits, with_jitter_budget}
use teamview.Desktop.Decode.Delivery.{IsConfigured, push_all, answers}
use teamview.Desktop.Decode.AnyOrder.{push_all-packetize}
use teamview.Desktop.Decode.Bounds.{IsBounded, push_each, pushed-IsBounded}
use teamview.Desktop.Capture.{
  CaptureFrame, CapturePixelFormat, CaptureFrameStorage, new_frame_queue, pop_latest, last_frame,
  resize_frame,
}
use teamview.Desktop.Capture.Latest.{latest, push_frames, push_frames-latest}
use teamview.Desktop.Capture.Resize.{IsResized, resize_frame-IsResized}
use teamview.Desktop.AnnexB.{annex_b_nals, collect_nals}
use teamview.Desktop.AnnexB.Framing.{NalUnit, stream_of, unit_of, collect_nals-append_nal}
use teamview.Desktop.Synthetic.{synthetic_preview_payload}
use teamview.Desktop.Synthetic.Codec.Shown.{IsShown}
use teamview.Desktop.Synthetic.Codec.{H264Encoder, encode, decode}
use teamview.Desktop.Synthetic.Codec.Keyframe.{decode-encode_keyframe}
use teamview.Desktop.App.{ClientRole, new_app, set_push_to_talk, set_ptt_active}
use teamview.Desktop.App.Selection.{
  IsCoherent, Reachable, started, sets_mode, talks, reachable-IsCoherent,
}
use teamview.Desktop.Stats.{no_media_stats, to_viewer_report}
use teamview.Desktop.Stats.Losses.{
  none_ahead, one_ahead, record_packets, total, record_packets-losses,
}

abbrev frame : EncodedFrame
frame = record {
  room_stream_id = 7;
  frame_id = 3;
  media_timestamp = 9000;
  sender_capture_time_micros = 10;
  sender_clock_offset_micros = pos 0;
  sender_encode_done_time_micros = 20;
  sender_send_time_micros = 30;
  server_receive_time_micros = 0;
  server_send_time_micros = 0;
  codec = CodecId.h264;
  is_keyframe = true;
  bytes = 1 ∷ 2 ∷ 3 ∷ 4 ∷ 5 ∷ [];
}

abbrev buffer : FrameReassemblyBuffer
buffer = record {
  pending = [];
  pending_limit = 2;
  age_limit = 4;
  media_ms_limit = 100;
  frame_interval_ms = 33;
}

buffer-IsConfigured : IsConfigured buffer
buffer-IsConfigured = record { room = omega arith; budget = omega arith }

push_all-packetize_example :
    (ps : List MediaPacket) × (packetize_frame_with_type big_endian frame PacketType.video 40 2
      ≡ ok ps)
    × ((qs : List MediaPacket)
        → Perm ps qs
        → push_all buffer qs ≡ (buffer, answers qs (ok (some frame))))
unfolding fragment_count_of eq_packet_type
push_all-packetize_example =
    push_all-packetize big_endian buffer frame PacketType.video 40 2 buffer-IsConfigured refl
      (omega arith) (omega arith) (omega arith) refl

abbrev packet_at : ℕ → MediaPacket
packet_at number = record {
  header = record {
    version = 1;
    packet_type = PacketType.video;
    flags = 0;
    room_stream_id = 7;
    sequence_number = number;
    frame_id = number;
    fragment_index = 0;
    fragment_count = 2;
    media_timestamp = 0;
    sender_capture_time_micros = 0;
    sender_clock_offset_micros = pos 0;
    sender_encode_done_time_micros = 0;
    sender_send_time_micros = 0;
    server_receive_time_micros = 0;
    server_send_time_micros = 0;
    codec = CodecId.h264;
    layer = 0;
    payload_length = 0;
  };
  payload = [];
}

-- Three frames come, and there is room for one.
pushed-IsBounded_example :
    IsBounded
      (push_each (with_limits 1 4) ((packet_at 1, 5) ∷ (packet_at 2, 6) ∷ (packet_at 3, 7) ∷ []))
    × IsBounded (
        push_each
          (with_jitter_budget 1 4 50 33)
          ((packet_at 1, 5) ∷ (packet_at 2, 6) ∷ (packet_at 3, 7) ∷ []))
pushed-IsBounded_example =
    pushed-IsBounded 1 4 50 33 ((packet_at 1, 5) ∷ (packet_at 2, 6) ∷ (packet_at 3, 7) ∷ [])

-- One number is lost where the numbers wrap around.
record_packets-losses_example :
    let report =
      to_viewer_report
        (record_packets no_media_stats (packet_at 4294967295 ∷ packet_at 1 ∷ []))
        1
        7 in
    (report.received_packets ≡ length (packet_at 4294967295 ∷ packet_at 1 ∷ []))
    × (report.received_packets + report.lost_packets ≡ 1 + total (2 ∷ []))
record_packets-losses_example =
    record_packets-losses (packet_at 4294967295) (2 ∷ []) (packet_at 1 ∷ []) 1 7
      (one_ahead (omega arith) (omega arith) refl none_ahead) (omega arith) (omega arith)
      (omega arith)

abbrev captured : ℕ → CaptureFrame
captured frame_id = record {
  frame_id = frame_id;
  width = 2;
  height = 1;
  capture_time_micros = 5;
  format = CapturePixelFormat.bgra8;
  storage = CaptureFrameStorage.cpu_bytes (1 ∷ 2 ∷ 3 ∷ 4 ∷ 5 ∷ 6 ∷ 7 ∷ 8 ∷ []);
}

push_frames-latest_example :
    let q = push_frames (new_frame_queue 1) (captured 1 ∷ captured 2 ∷ []) in
    (q.frames ≡ latest (max 1 1) (captured 1 ∷ captured 2 ∷ []))
    × (q.dropped_frames ≡ min (length (captured 1 ∷ captured 2 ∷ []) - max 1 1) (max_of 64))
    × ((pop_latest q).1 ≡ last_frame (captured 1 ∷ captured 2 ∷ []))
    × ((pop_latest q).0.frames ≡ [])
push_frames-latest_example = push_frames-latest 1 (captured 1 ∷ captured 2 ∷ [])

resize_frame-IsResized_example :
    IsResized (captured 1) (1 ∷ 2 ∷ 3 ∷ 4 ∷ 5 ∷ 6 ∷ 7 ∷ 8 ∷ []) 4 2 (resize_frame (captured 1) 4 2)
resize_frame-IsResized_example =
    resize_frame-IsResized (captured 1) (1 ∷ 2 ∷ 3 ∷ 4 ∷ 5 ∷ 6 ∷ 7 ∷ 8 ∷ []) 4 2 refl refl refl
      (omega arith) (omega arith) (omega arith) (omega arith) (omega arith)

talking : Reachable (set_ptt_active (set_push_to_talk (new_app ClientRole.viewer) true) true)
talking = talks true (sets_mode true (started ClientRole.viewer))

reachable-IsCoherent_example :
    IsCoherent (set_ptt_active (set_push_to_talk (new_app ClientRole.viewer) true) true)
reachable-IsCoherent_example =
    reachable-IsCoherent (set_ptt_active (set_push_to_talk (new_app ClientRole.viewer) true) true)
      talking

-- A parameter set, and a slice whose payload looks like start codes.
abbrev units : List NalUnit
units =
    record { header = 103; payload = 84 ∷ 86 ∷ [] }
    ∷ record { header = 101; payload = 0 ∷ 0 ∷ 0 ∷ 1 ∷ 0 ∷ 0 ∷ 3 ∷ 9 ∷ [] }
    ∷ []

collect_nals-append_nal_example :
    map unit_of (collect_nals 2 (annex_b_nals (stream_of units))) ≡ map some units
collect_nals-append_nal_example =
    collect_nals-append_nal units 2 (omega arith, (omega arith, tt)) (omega arith)

-- A frame that is larger than a decoded frame may be, and has no pixels in memory.
abbrev shot : CaptureFrame
shot = record {
  frame_id = 3;
  width = 7680;
  height = 4320;
  capture_time_micros = 10;
  format = CapturePixelFormat.bgra8;
  storage = CaptureFrameStorage.metadata_only;
}

abbrev encoder : H264Encoder
encoder = record {
  config = record {
    width = 2;
    height = 1;
    frames_per_second = 30;
    bitrate_bps = 4000000;
    synthetic_payload_bytes = 0;
  };
  keyframe_requested = true;
}

decode-encode_keyframe_example :
    IsShown shot (synthetic_preview_payload shot) (decode none (encode encoder shot 7).1.bytes).1
decode-encode_keyframe_example =
    decode-encode_keyframe encoder shot 7 none refl (omega arith) (omega arith) (omega arith)
      (omega arith) (omega arith)
