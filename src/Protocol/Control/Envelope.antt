-- ===== src/Protocol/Control/Envelope.antt =====
-- crates/protocol/src/control.rs: the two message types and their envelope.
use teamview.Prelude.{ℕ}
use teamview.Protocol.Codec.{protocol_version}
use teamview.Protocol.Control.Names.{RequestId}
use teamview.Protocol.Control.Media.{
  RequestKeyframe, SendRemoteInput, PollRemoteInput, RemoteInputQueued, RemoteInputBatch,
  StreamConfig, PollStreamConfig, PollStreamMetrics, StreamMetricsSnapshot, PublisherFeedback,
  ViewerStatsReport, PollPublisherFeedback, SetTargetBitrate, SetTargetFramerate,
}
use teamview.Protocol.Control.Rooms.{
  Hello, HelloAccepted, Ping, Pong, TimeSyncRequest, TimeSyncResponse, Authenticate, Authenticated,
  CreateRoom, RoomCreated, RoomList, JoinRoom, RoomJoined, ListParticipants, ParticipantList,
  PublishStream, StreamPublished, UnpublishStream, StreamUnpublished, ListStreams, StreamList,
  SubscribeStream, StreamSubscribed, UnsubscribeStream, StreamUnsubscribed, LeaveRoom, RoomLeft,
  SetVoiceState, VoiceState, ControlError,
}

pub record ControlEnvelope (T : Type 0) : Type 0 where
  pub protocol_version : ℕ
  pub request_id : RequestId
  pub message : T

pub data ClientControl : Type 0 where
  hello : Hello → ClientControl
  ping : Ping → ClientControl
  time_sync : TimeSyncRequest → ClientControl
  authenticate : Authenticate → ClientControl
  create_room : CreateRoom → ClientControl
  list_rooms : ClientControl
  join_room : JoinRoom → ClientControl
  list_participants : ListParticipants → ClientControl
  publish_stream : PublishStream → ClientControl
  unpublish_stream : UnpublishStream → ClientControl
  list_streams : ListStreams → ClientControl
  subscribe_stream : SubscribeStream → ClientControl
  unsubscribe_stream : UnsubscribeStream → ClientControl
  leave_room : LeaveRoom → ClientControl
  set_voice_state : SetVoiceState → ClientControl
  set_stream_config : StreamConfig → ClientControl
  poll_stream_config : PollStreamConfig → ClientControl
  poll_stream_metrics : PollStreamMetrics → ClientControl
  request_keyframe : RequestKeyframe → ClientControl
  send_remote_input : SendRemoteInput → ClientControl
  poll_remote_input : PollRemoteInput → ClientControl
  viewer_stats : ViewerStatsReport → ClientControl
  poll_publisher_feedback : PollPublisherFeedback → ClientControl
  set_target_bitrate : SetTargetBitrate → ClientControl
  set_target_framerate : SetTargetFramerate → ClientControl

pub data ServerControl : Type 0 where
  hello_accepted : HelloAccepted → ServerControl
  pong : Pong → ServerControl
  time_sync : TimeSyncResponse → ServerControl
  authenticated : Authenticated → ServerControl
  room_created : RoomCreated → ServerControl
  room_list : RoomList → ServerControl
  room_joined : RoomJoined → ServerControl
  participant_list : ParticipantList → ServerControl
  stream_published : StreamPublished → ServerControl
  stream_unpublished : StreamUnpublished → ServerControl
  stream_list : StreamList → ServerControl
  stream_subscribed : StreamSubscribed → ServerControl
  stream_unsubscribed : StreamUnsubscribed → ServerControl
  room_left : RoomLeft → ServerControl
  voice_state_updated : VoiceState → ServerControl
  request_keyframe : RequestKeyframe → ServerControl
  stream_config : StreamConfig → ServerControl
  stream_metrics : StreamMetricsSnapshot → ServerControl
  remote_input_queued : RemoteInputQueued → ServerControl
  remote_input_batch : RemoteInputBatch → ServerControl
  publisher_feedback : PublisherFeedback → ServerControl
  error : ControlError → ServerControl

abbrev pub ClientEnvelope : Type 0
ClientEnvelope = ControlEnvelope ClientControl

abbrev pub ServerEnvelope : Type 0
ServerEnvelope = ControlEnvelope ServerControl

-- `ControlEnvelope::new`
unfoldable pub new_envelope : {T : Type 0} → RequestId → T → ControlEnvelope T
new_envelope request_id message = record {
  protocol_version = protocol_version;
  request_id = request_id;
  message = message;
}
