-- ===== src/Relay/Control/Feedback.antt =====
-- crates/relay-server/src/control.rs: viewer reports, and the feedback that they give the publisher.
pub mod Adaptive
use teamview.Prelude.{
  ℕ, ◌+◌, ◌*◌, ◌/◌, max, Bool, true, false, not, ◌&&◌, ◌||◌, Option, none, some, List, [], ◌∷◌,
  ◌==◌, ltb, leb, length, if◌then◌else◌,
}
use teamview.Prelude.BtreeMap
use teamview.Prelude.BtreeMap.{Map}
use teamview.Prelude.Words.{clamp, cast, saturating_add, saturating_mul}
use teamview.Protocol.Packet.{MediaPacket}
use teamview.Protocol.Control.Names.{RoomId, UserId, StreamId, KeyframeReason}
use teamview.Protocol.Control.Media.{
  PublisherFeedback, ViewerStatsReport, PollPublisherFeedback, SetTargetBitrate, SetTargetFramerate,
}
use teamview.Protocol.Control.Envelope.{ServerControl}
use teamview.Relay.Room.{Room, PublishedStream}
use teamview.Relay.Metrics.{no_metrics, record_forwarding}
use teamview.Relay.Session.{Session, is_some}
use teamview.Relay.Control.Targets.{
  StreamTarget, stream_target, update_stream_target, viewer_is_degraded, reduce_resolution,
  degraded_bitrate_percent, min_target_bitrate_bps, max_target_bitrate_bps,
  min_target_frames_per_second, max_target_frames_per_second,
}
use teamview.Relay.Control.Streams.{register_keyframe_request}
use teamview.Relay.Control.State.{
  ControlState, Check, passed, refused, ◌>>=◌, ◌>>◌, some_or, require, answer, refusal,
  unauthenticated, room_not_found, stream_not_found, published_stream, publisher_for_stream,
  subscribers_for_stream,
}

-- crates/relay-server/src/media.rs: what happened to one forwarded packet.
pub record MediaForwardSummary : Type 0 where
  pub stream_id : StreamId
  pub queued : ℕ
  pub dropped : ℕ

unfoldable pub record_media_forward_summary :
    ControlState → MediaPacket → MediaForwardSummary → ℕ → ℕ → ℕ → ControlState
unfolding is_some
record_media_forward_summary s packet summary ingress_bytes received_at_micros server_route_ms =
    let stream_id = packet.header.room_stream_id in
    if is_some (published_stream s stream_id)
    then record s {
      stream_metrics =
          BtreeMap.insert stream_id
            (record_forwarding (BtreeMap.get_or stream_id no_metrics s.stream_metrics) ingress_bytes
              summary.queued summary.dropped received_at_micros server_route_ms)
            s.stream_metrics;
    }
    else s

-- The loop over the reports of one stream.
unfoldable pub count_degraded : ℕ → List ViewerStatsReport → ℕ
count_degraded count [] = count
count_degraded count (report ∷ reports) =
    count_degraded (if viewer_is_degraded report then saturating_add 32 count 1 else count) reports

unfoldable pub any_lost : List ViewerStatsReport → Bool
any_lost [] = false
any_lost (report ∷ reports) =
    (ltb 0 report.lost_packets || ltb 0 report.dropped_frames) || any_lost reports

unfoldable pub aggregate_publisher_feedback : ControlState → RoomId → StreamId → PublisherFeedback
unfolding count_degraded any_lost
aggregate_publisher_feedback s room_id stream_id =
    let target = stream_target s stream_id in
    let reports = BtreeMap.values (BtreeMap.get_or stream_id [] s.viewer_stats) in
    record {
      room_id = room_id;
      stream_id = stream_id;
      aggregate_available_bitrate_bps = target.bitrate_bps;
      target_frames_per_second = target.frames_per_second;
      target_width = target.width;
      target_height = target.height;
      degraded_viewer_count = count_degraded 0 reports;
      total_viewer_count = cast 32 (length (subscribers_for_stream s stream_id));
      keyframe_requested =
          BtreeMap.contains_key stream_id s.pending_keyframe_requests || any_lost reports;
    }

-- The target after one round of degradation: first the bitrate falls, then the frame rate, then the
-- resolution.
unfoldable pub degraded_target : StreamTarget → StreamTarget
unfolding reduce_resolution
degraded_target target =
    let new_bitrate =
      max (saturating_mul 32 target.bitrate_bps degraded_bitrate_percent / 100)
        min_target_bitrate_bps in
    let new_fps =
      if new_bitrate == target.bitrate_bps
        && ltb min_target_frames_per_second target.frames_per_second
      then max (saturating_mul 16 target.frames_per_second degraded_bitrate_percent / 100)
          min_target_frames_per_second
      else target.frames_per_second in
    let (new_width, new_height) =
      if new_bitrate == target.bitrate_bps && new_fps == target.frames_per_second
      then reduce_resolution target.width target.height
      else (target.width, target.height) in
    record {
      bitrate_bps = new_bitrate;
      frames_per_second = new_fps;
      width = new_width;
      height = new_height;
    }

-- `degraded * 2 >= total`, with a viewer at all.
unfoldable pub is_degraded_majority : PublisherFeedback → Bool
is_degraded_majority f =
    ltb 0 f.total_viewer_count
    && leb f.total_viewer_count (saturating_mul 32 f.degraded_viewer_count 2)

unfoldable pub resolution_changed : StreamTarget → StreamTarget → Bool
resolution_changed old new = not (new.width == old.width && new.height == old.height)

unfoldable pub adaptive_publisher_feedback :
    ControlState → RoomId → StreamId → ControlState × PublisherFeedback
unfolding is_degraded_majority resolution_changed
adaptive_publisher_feedback s room_id stream_id =
    let feedback = aggregate_publisher_feedback s room_id stream_id in
    if is_degraded_majority feedback
    then (let target = stream_target s stream_id in
        let new = degraded_target target in
        let s' =
          update_stream_target s stream_id new.bitrate_bps new.frames_per_second new.width
            new.height in
        let feedback' = record feedback {
          aggregate_available_bitrate_bps = new.bitrate_bps;
          target_frames_per_second = new.frames_per_second;
          target_width = new.width;
          target_height = new.height;
          keyframe_requested = resolution_changed target new || feedback.keyframe_requested;
        } in
        (
          (if resolution_changed target new
              then register_keyframe_request s' stream_id KeyframeReason.stream_config_changed
              else s'),
          feedback',
        ))
    else (s, feedback)

-- `self.publisher_for_stream(stream_id) == Some(user_id)`
unfoldable pub is_publisher_of : ControlState → StreamId → UserId → Bool
is_publisher_of s stream_id user_id = elim (publisher_for_stream s stream_id) [
  | some publisher_id ↦ publisher_id == user_id
  | none ↦ false
]

unfoldable pub poll_publisher_feedback :
    ControlState → Session → PollPublisherFeedback → ControlState × ServerControl
unfolding is_publisher_of
poll_publisher_feedback s session poll = answer s do
  user_id ← some_or session.user_id unauthenticated
  require (is_publisher_of s poll.stream_id user_id)
      (refusal "not_publisher" "only the stream publisher can poll publisher feedback")
  let (s', feedback) = adaptive_publisher_feedback s poll.room_id poll.stream_id
  passed (
    record s' {
      pending_keyframe_requests = BtreeMap.remove poll.stream_id s'.pending_keyframe_requests;
    },
    ServerControl.publisher_feedback feedback,
  )

-- The handler of `ViewerStats`: the report is stored whatever it is about.
unfoldable pub store_report : ControlState → UserId → ViewerStatsReport → ControlState
store_report s user_id report = record s {
  viewer_stats =
      BtreeMap.insert report.stream_id
        (BtreeMap.insert user_id report (BtreeMap.get_or report.stream_id [] s.viewer_stats))
        s.viewer_stats;
}

unfoldable pub viewer_stats :
    ControlState → Session → ViewerStatsReport → ControlState × ServerControl
unfolding store_report
viewer_stats s session report =
    let s' : ControlState = elim session.user_id [
      | some user_id ↦ store_report s user_id report
      | none ↦ s
    ] in
    (
      s',
      ServerControl.publisher_feedback
          (aggregate_publisher_feedback s' report.room_id report.stream_id),
    )

unfoldable pub validate_publisher_control :
    ControlState → Session → RoomId → StreamId → Check (Unit {0})
validate_publisher_control s session room_id stream_id = do
  user_id ← some_or session.user_id unauthenticated
  r ← some_or (BtreeMap.lookup room_id s.rooms) room_not_found
  stream ← some_or (BtreeMap.lookup stream_id r.published_streams) stream_not_found
  require (stream.publisher_id == user_id)
      (refusal "not_publisher" "only the stream publisher can update target media settings")

unfoldable pub set_target_bitrate :
    ControlState → Session → SetTargetBitrate → ControlState × ServerControl
set_target_bitrate s session target = answer s do
  validate_publisher_control s session target.room_id target.stream_id
  let current = stream_target s target.stream_id
  let bitrate_bps = clamp target.bitrate_bps min_target_bitrate_bps max_target_bitrate_bps
  let s' =
      update_stream_target s target.stream_id bitrate_bps current.frames_per_second current.width
        current.height
  passed (
    s',
    ServerControl.publisher_feedback
        (aggregate_publisher_feedback s' target.room_id target.stream_id),
  )

unfoldable pub set_target_framerate :
    ControlState → Session → SetTargetFramerate → ControlState × ServerControl
set_target_framerate s session target = answer s do
  validate_publisher_control s session target.room_id target.stream_id
  let current = stream_target s target.stream_id
  let frames_per_second =
      clamp target.frames_per_second min_target_frames_per_second max_target_frames_per_second
  let s' =
      update_stream_target s target.stream_id current.bitrate_bps frames_per_second current.width
        current.height
  passed (
    s',
    ServerControl.publisher_feedback
        (aggregate_publisher_feedback s' target.room_id target.stream_id),
  )
