-- ===== src/Relay/Control/Membership.antt =====
-- crates/relay-server/src/control.rs: creating, joining and leaving rooms, and disconnecting.
pub mod Departure
use teamview.Prelude.{
  ℕ, ◌+◌, ◌%◌, ◌^◌, Bool, true, false, not, ◌&&◌, ◌||◌, Option, none, some, List, [], ◌∷◌, ◌==◌,
  ltb, length, if◌then◌else◌,
}
use teamview.Prelude.BtreeMap
use teamview.Prelude.BtreeMap.{Map}
use teamview.Prelude.BtreeSet
use teamview.Prelude.Words.{cast}
use teamview.Protocol.Control.Names.{RoomId, UserId, StreamId}
use teamview.Protocol.Control.Media.{ViewerStatsReport}
use teamview.Protocol.Control.Rooms.{
  CreateRoom, RoomCreated, JoinRoom, RoomJoined, LeaveRoom, RoomLeft,
}
use teamview.Protocol.Control.Envelope.{ServerControl}
use teamview.Relay.Room.{
  Room, PublishedStream, new_room, join, leave, streams_published_by, remove_published_stream,
}
use teamview.Relay.Room
use teamview.Relay.Session.{Session}
use teamview.Relay.Control.Names.{sanitize_room_name}
use teamview.Relay.Control.Voice.{ensure_voice_state, remove_voice_state}
use teamview.Relay.Control.State.{
  ControlState, Check, passed, refused, ◌>>=◌, ◌>>◌, some_or, require, answer, refusal,
  unauthenticated, room_not_found,
}

unfoldable pub remove_viewer_stats : ControlState → StreamId → UserId → ControlState
remove_viewer_stats s stream_id user_id = elim (BtreeMap.lookup stream_id s.viewer_stats) [
  | none ↦ s
  | some reports ↦
      let rest = BtreeMap.remove user_id reports in
      if BtreeMap.is_empty rest
      then record s { viewer_stats = BtreeMap.remove stream_id s.viewer_stats }
      else record s { viewer_stats = BtreeMap.insert stream_id rest s.viewer_stats }
]

unfoldable pub remove_stream_state : ControlState → StreamId → ControlState
remove_stream_state s stream_id = record s {
  viewer_stats = BtreeMap.remove stream_id s.viewer_stats;
  pending_keyframe_requests = BtreeMap.remove stream_id s.pending_keyframe_requests;
  pending_remote_input = BtreeMap.remove stream_id s.pending_remote_input;
  stream_metrics = BtreeMap.remove stream_id s.stream_metrics;
}

-- `self.rooms.get(&room_id).is_some_and(Room::is_empty)`
unfoldable pub room_is_empty : ControlState → RoomId → Bool
room_is_empty s room_id = elim (BtreeMap.lookup room_id s.rooms) [
  | some r ↦ Room.is_empty r
  | none ↦ false
]

unfoldable pub remove_room_if_empty : ControlState → RoomId → ControlState
unfolding room_is_empty
remove_room_if_empty s room_id =
    if room_is_empty s room_id
    then record s {
      rooms = BtreeMap.remove room_id s.rooms;
      voice_states = BtreeMap.remove room_id s.voice_states;
    }
    else s

unfoldable pub create_room : ControlState → Session → CreateRoom → ControlState × ServerControl
create_room s session create = answer s do
  user_id ← some_or session.user_id unauthenticated
  require (ltb (length s.rooms) s.limits.max_rooms)
      (refusal "room_limit_reached" "server room limit has been reached")
  let room_id = s.next_room_id
  let room_name = sanitize_room_name create.name room_id
  let s' = record s {
    next_room_id = (room_id + 1) % 2 ^ 64;
    rooms = BtreeMap.insert room_id (join (new_room room_id room_name) user_id).0 s.rooms;
  }
  passed (
    ensure_voice_state s' room_id user_id,
    ServerControl.room_created (record { room_id = room_id; name = room_name }),
  )

unfoldable pub join_room : ControlState → Session → JoinRoom → ControlState × ServerControl
join_room s session request = answer s do
  r ← some_or (BtreeMap.lookup request.room_id s.rooms) room_not_found
  user_id ← some_or session.user_id unauthenticated
  require
      (BtreeSet.contains user_id r.participants
        || ltb (length r.participants) s.limits.max_participants_per_room)
      (refusal "room_full" "room participant limit has been reached")
  let (r', participant_count) = join r user_id
  let s' = record s { rooms = BtreeMap.insert request.room_id r' s.rooms }
  passed (
    ensure_voice_state s' request.room_id user_id,
    ServerControl.room_joined
        (record { room_id = request.room_id; participant_count = participant_count }),
  )

-- `for stream_id in &removed_streams { room.remove_published_stream(*stream_id); }`
unfoldable pub remove_published_streams : Room → List StreamId → Room
remove_published_streams r [] = r
remove_published_streams r (stream_id ∷ stream_ids) =
    remove_published_streams (remove_published_stream r stream_id).0 stream_ids

-- The streams of the room that the user subscribes to.
unfoldable pub streams_subscribed_by : Room → UserId → List StreamId
streams_subscribed_by r user_id =
    BtreeMap.keys_where (λ _ subscribers. BtreeSet.contains user_id subscribers) r.subscriptions

-- The room without the user and without the user's streams.
unfoldable pub without_user : Room → UserId → Room
unfolding remove_published_streams
without_user r user_id = remove_published_streams (leave r user_id) (streams_published_by r user_id)

unfoldable pub remove_viewer_stats_of : ControlState → List StreamId → UserId → ControlState
unfolding remove_viewer_stats
remove_viewer_stats_of s [] user_id = s
remove_viewer_stats_of s (stream_id ∷ stream_ids) user_id =
    remove_viewer_stats_of (remove_viewer_stats s stream_id user_id) stream_ids user_id

unfoldable pub remove_stream_states : ControlState → List StreamId → ControlState
unfolding remove_stream_state
remove_stream_states s [] = s
remove_stream_states s (stream_id ∷ stream_ids) =
    remove_stream_states (remove_stream_state s stream_id) stream_ids

-- `leave_room` once the room is found.
unfoldable pub leave_found_room : ControlState → UserId → RoomId → Room → ControlState
leave_found_room s user_id room_id r =
    let s₁ = record s { rooms = BtreeMap.insert room_id (without_user r user_id) s.rooms } in
    let s₂ = remove_viewer_stats_of s₁ (streams_subscribed_by r user_id) user_id in
    let s₃ = remove_voice_state s₂ room_id user_id in
    let s₄ = remove_stream_states s₃ (streams_published_by r user_id) in
    remove_room_if_empty s₄ room_id

unfoldable pub leave_room : ControlState → UserId → RoomId → ControlState
leave_room s user_id room_id = elim (BtreeMap.lookup room_id s.rooms) [
  | none ↦ s
  | some r ↦ leave_found_room s user_id room_id r
]

-- The handler of `LeaveRoom`.
unfoldable pub handle_leave_room : ControlState → Session → LeaveRoom → ControlState × ServerControl
handle_leave_room s session request = (
  elim session.user_id [ some user_id ↦ leave_room s user_id request.room_id | none ↦ s ],
  ServerControl.room_left (record { room_id = request.room_id }),
)

unfoldable pub publishes_any : UserId → List PublishedStream → Bool
publishes_any user_id [] = false
publishes_any user_id (stream ∷ streams) =
    stream.publisher_id == user_id || publishes_any user_id streams

-- The rooms in which the user takes part or publishes.
unfoldable pub affected_rooms : ControlState → UserId → List RoomId
unfolding publishes_any
affected_rooms s user_id =
    BtreeMap.keys_where
      (λ _ r.
        BtreeSet.contains user_id r.participants
        || publishes_any user_id (BtreeMap.values r.published_streams))
      s.rooms

unfoldable pub leave_rooms : ControlState → UserId → List RoomId → ControlState
unfolding leave_room
leave_rooms s user_id [] = s
leave_rooms s user_id (room_id ∷ room_ids) =
    leave_rooms (leave_room s user_id room_id) user_id room_ids

-- The statistics without the user's reports, and without the streams that have none left.
unfoldable pub viewer_stats_without :
    UserId → Map (Map ViewerStatsReport) → Map (Map ViewerStatsReport)
viewer_stats_without user_id viewer_stats =
    BtreeMap.retain (λ _ reports. not (BtreeMap.is_empty reports))
      (BtreeMap.map_values (BtreeMap.remove user_id) viewer_stats)

unfoldable pub disconnect_user : ControlState → UserId → ControlState
disconnect_user s user_id =
    let s' = leave_rooms s user_id (affected_rooms s user_id) in
    record s' {
      viewer_stats = viewer_stats_without user_id s'.viewer_stats;
      display_names = BtreeMap.remove user_id s'.display_names;
    }
