-- ===== src/Protocol/Control/Rooms.antt =====
-- crates/protocol/src/control.rs: messages about identities, rooms, participants and streams.
use teamview.Prelude.{ℕ, Bool, List}
use teamview.Prelude.Text.{Text}
use teamview.Protocol.Codec.{CodecId}
use teamview.Protocol.Control.Names.{RoomId, UserId, StreamId, MediaKind}

pub record Hello : Type 0 where
  pub protocol_version : ℕ
  pub client_name : Text

pub record HelloAccepted : Type 0 where
  pub protocol_version : ℕ
  pub server_name : Text
  pub user_id : UserId
  pub display_name : Text

pub record Ping : Type 0 where
  pub nonce : ℕ

pub record Pong : Type 0 where
  pub nonce : ℕ

pub record TimeSyncRequest : Type 0 where
  pub client_send_time_micros : ℕ

pub record TimeSyncResponse : Type 0 where
  pub client_send_time_micros : ℕ
  pub server_receive_time_micros : ℕ
  pub server_send_time_micros : ℕ

pub record Authenticate : Type 0 where
  pub token : Text

pub record Authenticated : Type 0 where
  pub user_id : UserId
  pub display_name : Text

pub record CreateRoom : Type 0 where
  pub name : Text

pub record RoomCreated : Type 0 where
  pub room_id : RoomId
  pub name : Text

pub record RoomSummary : Type 0 where
  pub room_id : RoomId
  pub name : Text
  pub participant_count : ℕ
  pub published_stream_count : ℕ

pub record RoomList : Type 0 where
  pub rooms : List RoomSummary

pub record JoinRoom : Type 0 where
  pub room_id : RoomId

pub record RoomJoined : Type 0 where
  pub room_id : RoomId
  pub participant_count : ℕ

pub record ListParticipants : Type 0 where
  pub room_id : RoomId

pub record ParticipantSummary : Type 0 where
  pub room_id : RoomId
  pub user_id : UserId
  pub display_name : Text
  pub muted : Bool
  pub deafened : Bool
  pub push_to_talk : Bool
  pub speaking : Bool
  pub published_stream_count : ℕ
  pub subscribed_stream_count : ℕ

pub record ParticipantList : Type 0 where
  pub room_id : RoomId
  pub participants : List ParticipantSummary

pub record PublishStream : Type 0 where
  pub room_id : RoomId
  pub stream_id : StreamId
  pub codec : CodecId
  pub media_kind : MediaKind

pub record StreamPublished : Type 0 where
  pub room_id : RoomId
  pub stream_id : StreamId

pub record UnpublishStream : Type 0 where
  pub room_id : RoomId
  pub stream_id : StreamId

pub record StreamUnpublished : Type 0 where
  pub room_id : RoomId
  pub stream_id : StreamId

pub record ListStreams : Type 0 where
  pub room_id : RoomId

pub record StreamSummary : Type 0 where
  pub room_id : RoomId
  pub stream_id : StreamId
  pub publisher_id : UserId
  pub codec : CodecId
  pub media_kind : MediaKind
  pub subscriber_count : ℕ
  pub has_config : Bool
  pub target_bitrate_bps : ℕ
  pub target_frames_per_second : ℕ

pub record StreamList : Type 0 where
  pub room_id : RoomId
  pub streams : List StreamSummary

pub record SubscribeStream : Type 0 where
  pub room_id : RoomId
  pub stream_id : StreamId

pub record StreamSubscribed : Type 0 where
  pub room_id : RoomId
  pub stream_id : StreamId

pub record UnsubscribeStream : Type 0 where
  pub room_id : RoomId
  pub stream_id : StreamId

pub record StreamUnsubscribed : Type 0 where
  pub room_id : RoomId
  pub stream_id : StreamId

pub record LeaveRoom : Type 0 where
  pub room_id : RoomId

pub record RoomLeft : Type 0 where
  pub room_id : RoomId

pub record SetVoiceState : Type 0 where
  pub room_id : RoomId
  pub muted : Bool
  pub deafened : Bool
  pub push_to_talk : Bool
  pub speaking : Bool

pub record VoiceState : Type 0 where
  pub room_id : RoomId
  pub user_id : UserId
  pub muted : Bool
  pub deafened : Bool
  pub push_to_talk : Bool
  pub speaking : Bool

pub record ControlError : Type 0 where
  pub code : Text
  pub message : Text
