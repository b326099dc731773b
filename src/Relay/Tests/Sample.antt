-- ===== src/Relay/Tests/Sample.antt =====
-- A small relay: two users in one room, the first of whom shares a screen that the second watches.
use teamview.Prelude.{ℕ, Bool, none, some, [], ◌∷◌}
use teamview.Prelude.Int.{pos}
use teamview.Prelude.Text.{Text}
use teamview.Protocol.Codec.{CodecId}
use teamview.Protocol.Packet.{PacketType, MediaPacket}
use teamview.Protocol.Control.Names.{MediaKind}
use teamview.Protocol.Control.Envelope.{ClientControl, ClientEnvelope}
use teamview.Relay.Room.{Room, PublishedStream}
use teamview.Relay.Session.{Session}
use teamview.Relay.Control.State.{ControlState}

abbrev pub stream : PublishedStream
stream = record {
  stream_id = 7;
  publisher_id = 1;
  codec = CodecId.h264;
  media_kind = MediaKind.screen;
  config = none;
  target_bitrate_bps = 4000000;
  target_frames_per_second = 30;
  target_width = 1280;
  target_height = 720;
}

abbrev pub the_room : Room
the_room = record {
  id = 1;
  name = 97 ∷ [];
  participants = 1 ∷ 2 ∷ [];
  published_streams = (7, stream) ∷ [];
  subscriptions = (7, 2 ∷ []) ∷ [];
}

abbrev pub token : Text
token = 115 ∷ 51 ∷ []

abbrev pub state : ControlState
state = record {
  rooms = (1, the_room) ∷ [];
  display_names = [];
  viewer_stats = [];
  voice_states = [];
  pending_keyframe_requests = [];
  pending_remote_input = [];
  stream_metrics = [];
  access_token = some token;
  limits = record { max_rooms = 2; max_participants_per_room = 4; max_streams_per_room = 1 };
  next_room_id = 2;
  next_user_id = 3;
}

abbrev pub session_of : ℕ → Bool → Session
session_of user_id granted = record {
  id = user_id;
  user_id = some user_id;
  display_name = [];
  access_granted = granted;
}

abbrev pub envelope_of : ClientControl → ClientEnvelope
envelope_of message = record { protocol_version = 1; request_id = 12; message = message }

abbrev pub packet : MediaPacket
packet = record {
  header = record {
    version = 1;
    packet_type = PacketType.video;
    flags = 2;
    room_stream_id = 7;
    sequence_number = 40;
    frame_id = 3;
    fragment_index = 0;
    fragment_count = 1;
    media_timestamp = 9000;
    sender_capture_time_micros = 1000;
    sender_clock_offset_micros = pos 0;
    sender_encode_done_time_micros = 1100;
    sender_send_time_micros = 1200;
    server_receive_time_micros = 0;
    server_send_time_micros = 0;
    codec = CodecId.h264;
    layer = 0;
    payload_length = 1;
  };
  payload = 9 ∷ [];
}
