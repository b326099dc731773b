-- ===== src/Relay/Control/Streams.antt =====
-- crates/relay-server/src/control.rs: publishing, subscribing and configuring streams.
use teamview.Prelude.{Bool, false, not, ◌&&◌, ◌||◌, none, some, ◌==◌, ltb, length, if◌then◌else◌}
use teamview.Prelude.BtreeMap
use teamview.Prelude.BtreeSet
use teamview.Prelude.Words.{clamp}
use teamview.Protocol.Codec.{eq_codec}
use teamview.Protocol.Control.Names.{UserId, StreamId, KeyframeReason, is_screen}
use teamview.Protocol.Control.Media.{RequestKeyframe, StreamConfig}
use teamview.Protocol.Control.Rooms.{
  PublishStream, UnpublishStream, SubscribeStream, UnsubscribeStream,
}
use teamview.Protocol.Control.Envelope.{ServerControl}
use teamview.Relay.Room.{
  Room, PublishedStream, remove_published_stream, subscribe, unsubscribe, is_subscriber,
}
use teamview.Relay.Room
use teamview.Relay.Session.{Session, is_some}
use teamview.Relay.Control.Membership.{
  remove_stream_state, remove_room_if_empty, remove_viewer_stats,
}
use teamview.Relay.Control.Targets.{
  clamp_target_resolution, default_target_bitrate_bps, default_target_frames_per_second,
  min_target_frames_per_second, max_target_frames_per_second,
}
use teamview.Relay.Control.State.{
  ControlState, passed, ◌>>=◌, ◌>>◌, some_or, require, answer, refusal, unauthenticated,
  room_not_found, stream_not_found, publisher_for_stream,
}

-- A stream as it is published.
unfoldable pub fresh_stream : PublishStream → UserId → PublishedStream
fresh_stream publish user_id = record {
  stream_id = publish.stream_id;
  publisher_id = user_id;
  codec = publish.codec;
  media_kind = publish.media_kind;
  config = none;
  target_bitrate_bps = default_target_bitrate_bps;
  target_frames_per_second = default_target_frames_per_second;
  target_width = 0;
  target_height = 0;
}

unfoldable pub publish_stream :
    ControlState → Session → PublishStream → ControlState × ServerControl
unfolding is_some
publish_stream s session publish = answer s do
  require (not (is_some (publisher_for_stream s publish.stream_id)))
      (refusal "stream_id_conflict" "stream id is already published")
  r ← some_or (BtreeMap.lookup publish.room_id s.rooms) room_not_found
  user_id ← some_or session.user_id unauthenticated
  require (BtreeSet.contains user_id r.participants)
      (refusal "not_in_room" "join room before publishing")
  require (ltb (length r.published_streams) s.limits.max_streams_per_room)
      (refusal "stream_limit_reached" "room stream limit has been reached")
  let r' = Room.publish_stream r (fresh_stream publish user_id)
  passed (
    record s { rooms = BtreeMap.insert publish.room_id r' s.rooms },
    ServerControl.stream_published
        (record { room_id = publish.room_id; stream_id = publish.stream_id }),
  )

unfoldable pub unpublish_stream :
    ControlState → Session → UnpublishStream → ControlState × ServerControl
unpublish_stream s session request = answer s do
  user_id ← some_or session.user_id unauthenticated
  r ← some_or (BtreeMap.lookup request.room_id s.rooms) room_not_found
  stream ← some_or (BtreeMap.lookup request.stream_id r.published_streams) stream_not_found
  require (stream.publisher_id == user_id)
      (refusal "not_publisher" "only the stream publisher can unpublish")
  let (r', removed) = remove_published_stream r request.stream_id
  let s₁ = record s { rooms = BtreeMap.insert request.room_id r' s.rooms }
  let s₂ = remove_stream_state s₁ request.stream_id
  gone ← some_or removed stream_not_found
  passed (
    remove_room_if_empty s₂ request.room_id,
    ServerControl.stream_unpublished
        (record { room_id = request.room_id; stream_id = request.stream_id }),
  )

unfoldable pub register_keyframe_request : ControlState → StreamId → KeyframeReason → ControlState
register_keyframe_request s stream_id reason = record s {
  pending_keyframe_requests = BtreeMap.insert stream_id reason s.pending_keyframe_requests;
}

-- `room.published_streams.get(&id).is_some_and(|stream| stream.media_kind == MediaKind::Screen)`
unfoldable pub publishes_screen : Room → StreamId → Bool
unfolding is_screen
publishes_screen r stream_id = elim (BtreeMap.lookup stream_id r.published_streams) [
  | some stream ↦ is_screen stream.media_kind
  | none ↦ false
]

unfoldable pub subscribe_stream :
    ControlState → Session → SubscribeStream → ControlState × ServerControl
subscribe_stream s session request = answer s do
  r ← some_or (BtreeMap.lookup request.room_id s.rooms) room_not_found
  user_id ← some_or session.user_id unauthenticated
  require (BtreeSet.contains user_id r.participants)
      (refusal "not_in_room" "join room before subscribing")
  let already_subscribed = is_subscriber r request.stream_id user_id
  let requests_keyframe_on_subscribe = publishes_screen r request.stream_id
  let (r', subscribed) = subscribe r request.stream_id user_id
  require subscribed stream_not_found
  let s' = record s { rooms = BtreeMap.insert request.room_id r' s.rooms }
  passed (
    (if not already_subscribed && requests_keyframe_on_subscribe
        then register_keyframe_request s' request.stream_id KeyframeReason.new_subscriber
        else s'),
    ServerControl.stream_subscribed
        (record { room_id = request.room_id; stream_id = request.stream_id }),
  )

-- The state behind `UnsubscribeStream`, once the room and the user are there.
unfoldable pub unsubscribed : ControlState → UnsubscribeStream → Room → UserId → ControlState
unsubscribed s request r user_id =
    remove_viewer_stats
      (record s {
        rooms = BtreeMap.insert request.room_id (unsubscribe r request.stream_id user_id) s.rooms;
      })
      request.stream_id user_id

unfoldable pub unsubscribe_stream :
    ControlState → Session → UnsubscribeStream → ControlState × ServerControl
unsubscribe_stream s session request = (
  elim (BtreeMap.lookup request.room_id s.rooms) [
    | some r ↦ elim session.user_id [ some user_id ↦ unsubscribed s request r user_id | none ↦ s ]
    | none ↦ s
  ],
  ServerControl.stream_unsubscribed
      (record { room_id = request.room_id; stream_id = request.stream_id }),
)

unfoldable pub request_keyframe :
    ControlState → Session → RequestKeyframe → ControlState × ServerControl
request_keyframe s session request = answer s do
  user_id ← some_or session.user_id unauthenticated
  r ← some_or (BtreeMap.lookup request.room_id s.rooms) room_not_found
  require (BtreeSet.contains user_id r.participants)
      (refusal "not_in_room" "join room before requesting a keyframe")
  stream ← some_or (BtreeMap.lookup request.stream_id r.published_streams) stream_not_found
  require (stream.publisher_id == user_id || is_subscriber r request.stream_id user_id)
      (refusal "not_subscribed" "subscribe to the stream before requesting a keyframe")
  passed (
    register_keyframe_request s request.stream_id request.reason,
    ServerControl.request_keyframe request,
  )

-- The configuration with the values that the relay allows.
unfoldable pub allowed_config : StreamConfig → StreamConfig
unfolding clamp_target_resolution
allowed_config config =
    let (width, height) = clamp_target_resolution config.width config.height in
    record config {
      frames_per_second =
          clamp config.frames_per_second min_target_frames_per_second max_target_frames_per_second;
      width = width;
      height = height;
    }

unfoldable pub with_config : StreamConfig → PublishedStream → PublishedStream
with_config c stream = record stream {
  target_frames_per_second = c.frames_per_second;
  target_width = c.width;
  target_height = c.height;
  config = some c;
}

unfoldable pub set_stream_config :
    ControlState → Session → StreamConfig → ControlState × ServerControl
set_stream_config s session config = answer s do
  user_id ← some_or session.user_id unauthenticated
  r ← some_or (BtreeMap.lookup config.room_id s.rooms) room_not_found
  stream ← some_or (BtreeMap.lookup config.stream_id r.published_streams) stream_not_found
  require (stream.publisher_id == user_id)
      (refusal "not_publisher" "only the stream publisher can set stream config")
  require (eq_codec stream.codec config.codec)
      (refusal "codec_mismatch" "stream config codec must match published stream codec")
  let c = allowed_config config
  let streams = BtreeMap.insert config.stream_id (with_config c stream) r.published_streams
  passed (
    record s {
      rooms = BtreeMap.insert config.room_id (record r { published_streams = streams }) s.rooms;
    },
    ServerControl.stream_config c,
  )
