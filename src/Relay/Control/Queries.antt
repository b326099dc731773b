-- ===== src/Relay/Control/Queries.antt =====
-- crates/relay-server/src/control.rs: the requests that only read the state.
use teamview.Prelude.{none, some, map, ◌==◌, length}
use teamview.Prelude.BtreeMap
use teamview.Prelude.BtreeMap.{Map}
use teamview.Prelude.BtreeSet
use teamview.Prelude.Words.{cast}
use teamview.Protocol.Control.Names.{RoomId, UserId, StreamId}
use teamview.Protocol.Control.Rooms.{
  RoomSummary, RoomList, StreamSummary, ParticipantSummary, VoiceState,
}
use teamview.Protocol.Control.Envelope.{ServerControl}
use teamview.Relay.Room.{Room, PublishedStream, subscribers}
use teamview.Relay.Metrics.{no_metrics, snapshot}
use teamview.Relay.Session.{Session, is_some}
use teamview.Relay.Control.Voice.{voice_state, default_voice_state}
use teamview.Relay.Control.State.{
  ControlState, Check, passed, refused, ◌>>=◌, ◌>>◌, some_or, require, refusal, unauthenticated,
  room_not_found, stream_not_found, display_name_for_user,
}

-- The reply of a request that changes nothing.
abbrev pub reply : Check ServerControl → ServerControl
reply (passed m) = m
reply (refused e) = e

unfoldable pub poll_stream_config : ControlState → Session → RoomId → StreamId → ServerControl
poll_stream_config s session room_id stream_id = reply do
  user_id ← some_or session.user_id unauthenticated
  r ← some_or (BtreeMap.lookup room_id s.rooms) room_not_found
  require (BtreeSet.contains user_id r.participants)
      (refusal "not_in_room" "join room before polling stream config")
  stream ← some_or (BtreeMap.lookup stream_id r.published_streams) stream_not_found
  config ←
      some_or stream.config
        (refusal "stream_config_unavailable" "publisher has not sent stream config yet")
  passed (ServerControl.stream_config config)

unfoldable pub room_summary : Room → RoomSummary
room_summary r = record {
  room_id = r.id;
  name = r.name;
  participant_count = cast 32 (length r.participants);
  published_stream_count = cast 32 (length r.published_streams);
}

unfoldable pub list_rooms : ControlState → RoomList
list_rooms s = record { rooms = map room_summary (BtreeMap.values s.rooms) }

unfoldable pub stream_summary : RoomId → Room → PublishedStream → StreamSummary
unfolding subscribers is_some
stream_summary room_id r stream = record {
  room_id = room_id;
  stream_id = stream.stream_id;
  publisher_id = stream.publisher_id;
  codec = stream.codec;
  media_kind = stream.media_kind;
  subscriber_count = cast 32 (length (subscribers r stream.stream_id));
  has_config = is_some stream.config;
  target_bitrate_bps = stream.target_bitrate_bps;
  target_frames_per_second = stream.target_frames_per_second;
}

unfoldable pub list_streams : ControlState → Session → RoomId → ServerControl
list_streams s session room_id = reply do
  user_id ← some_or session.user_id unauthenticated
  r ← some_or (BtreeMap.lookup room_id s.rooms) room_not_found
  require (BtreeSet.contains user_id r.participants)
      (refusal "not_in_room" "join room before listing streams")
  passed (
      ServerControl.stream_list (record {
        room_id = room_id;
        streams = map (stream_summary room_id r) (BtreeMap.values r.published_streams);
      }))

unfoldable pub participant_summary : ControlState → RoomId → Room → UserId → ParticipantSummary
unfolding default_voice_state
participant_summary s room_id r user_id =
    let v : VoiceState = elim (voice_state s room_id user_id) [
      | some v ↦ v
      | none ↦ default_voice_state room_id user_id
    ] in
    record {
      room_id = room_id;
      user_id = user_id;
      display_name = display_name_for_user s user_id;
      muted = v.muted;
      deafened = v.deafened;
      push_to_talk = v.push_to_talk;
      speaking = v.speaking;
      published_stream_count = cast 32 (
          length
            (BtreeMap.keys_where (λ _ stream. stream.publisher_id == user_id) r.published_streams));
      subscribed_stream_count = cast 32 (
          length
            (BtreeMap.keys_where (λ _ users. BtreeSet.contains user_id users) r.subscriptions));
    }

unfoldable pub list_participants : ControlState → Session → RoomId → ServerControl
unfolding participant_summary
list_participants s session room_id = reply do
  user_id ← some_or session.user_id unauthenticated
  r ← some_or (BtreeMap.lookup room_id s.rooms) room_not_found
  require (BtreeSet.contains user_id r.participants)
      (refusal "not_in_room" "join room before listing participants")
  passed (
      ServerControl.participant_list (record {
        room_id = room_id;
        participants = map (participant_summary s room_id r) r.participants;
      }))

unfoldable pub poll_stream_metrics : ControlState → Session → RoomId → StreamId → ServerControl
unfolding subscribers
poll_stream_metrics s session room_id stream_id = reply do
  user_id ← some_or session.user_id unauthenticated
  r ← some_or (BtreeMap.lookup room_id s.rooms) room_not_found
  require (BtreeSet.contains user_id r.participants)
      (refusal "not_in_room" "join room before polling stream metrics")
  require (BtreeMap.contains_key stream_id r.published_streams) stream_not_found
  passed (
      ServerControl.stream_metrics (
        snapshot (BtreeMap.get_or stream_id no_metrics s.stream_metrics) room_id stream_id
          (cast 32 (length (subscribers r stream_id)))))
