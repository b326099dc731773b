-- ===== src/Protocol/Control/Media.antt =====
-- crates/protocol/src/control.rs: messages about a stream's media, its viewers and remote input.
use teamview.Prelude.{ℕ, Bool, List}
use teamview.Prelude.Int.{ℤ}
use teamview.Prelude.Text.{Text}
use teamview.Protocol.Codec.{CodecId}
use teamview.Protocol.Control.Names.{RoomId, UserId, StreamId, KeyframeReason, PointerButton}

pub data RemoteInputKind : Type 0 where
  pointer_move : (normalized_x normalized_y : ℕ) → RemoteInputKind
  pointer_button :
      (button : PointerButton) (pressed : Bool) (normalized_x normalized_y : ℕ) → RemoteInputKind
  pointer_wheel : (delta_x delta_y : ℤ) (normalized_x normalized_y : ℕ) → RemoteInputKind
  key : (key_code : ℕ) (pressed : Bool) → RemoteInputKind
  text : (text : Text) → RemoteInputKind

pub record RequestKeyframe : Type 0 where
  pub room_id : RoomId
  pub stream_id : StreamId
  pub reason : KeyframeReason

pub record SendRemoteInput : Type 0 where
  pub room_id : RoomId
  pub stream_id : StreamId
  pub sequence_number : ℕ
  pub event_time_micros : ℕ
  pub kind : RemoteInputKind

pub record PollRemoteInput : Type 0 where
  pub room_id : RoomId
  pub stream_id : StreamId
  pub max_events : ℕ

pub record RemoteInputQueued : Type 0 where
  pub room_id : RoomId
  pub stream_id : StreamId
  pub publisher_id : UserId
  pub queued_events : ℕ
  pub dropped_events : ℕ

pub record RemoteInputEvent : Type 0 where
  pub sender_user_id : UserId
  pub sequence_number : ℕ
  pub event_time_micros : ℕ
  pub kind : RemoteInputKind

pub record RemoteInputBatch : Type 0 where
  pub room_id : RoomId
  pub stream_id : StreamId
  pub events : List RemoteInputEvent

pub record StreamConfig : Type 0 where
  pub room_id : RoomId
  pub stream_id : StreamId
  pub codec : CodecId
  pub width : ℕ
  pub height : ℕ
  pub frames_per_second : ℕ
  pub timebase_hz : ℕ

pub record PollStreamConfig : Type 0 where
  pub room_id : RoomId
  pub stream_id : StreamId

pub record PollStreamMetrics : Type 0 where
  pub room_id : RoomId
  pub stream_id : StreamId

pub record StreamMetricsSnapshot : Type 0 where
  pub room_id : RoomId
  pub stream_id : StreamId
  pub ingress_packets : ℕ
  pub ingress_bytes : ℕ
  pub egress_queued_packets : ℕ
  pub egress_dropped_packets : ℕ
  pub egress_queue_packets : ℕ
  pub egress_queue_media_ms : ℕ
  pub subscriber_count : ℕ
  pub last_ingress_time_micros : ℕ
  pub server_route_ms_p50 : ℕ
  pub server_route_ms_p95 : ℕ

pub record PublisherFeedback : Type 0 where
  pub room_id : RoomId
  pub stream_id : StreamId
  pub aggregate_available_bitrate_bps : ℕ
  pub target_frames_per_second : ℕ
  pub target_width : ℕ
  pub target_height : ℕ
  pub degraded_viewer_count : ℕ
  pub total_viewer_count : ℕ
  pub keyframe_requested : Bool

pub record ViewerStatsReport : Type 0 where
  pub room_id : RoomId
  pub stream_id : StreamId
  pub received_packets : ℕ
  pub lost_packets : ℕ
  pub decoded_frames : ℕ
  pub dropped_frames : ℕ
  pub jitter_buffer_ms : ℕ
  pub estimated_latency_ms : ℕ
  pub calibrated_latency_ms : ℕ
  pub reassembly_ms_p50 : ℕ
  pub reassembly_ms_p95 : ℕ
  pub decode_ms_p50 : ℕ
  pub decode_ms_p95 : ℕ
  pub render_ms_p50 : ℕ
  pub render_ms_p95 : ℕ
  pub render_fps : ℕ

pub record PollPublisherFeedback : Type 0 where
  pub room_id : RoomId
  pub stream_id : StreamId

pub record SetTargetBitrate : Type 0 where
  pub room_id : RoomId
  pub stream_id : StreamId
  pub bitrate_bps : ℕ

pub record SetTargetFramerate : Type 0 where
  pub room_id : RoomId
  pub stream_id : StreamId
  pub frames_per_second : ℕ
