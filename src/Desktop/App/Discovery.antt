-- ===== src/Desktop/App/Discovery.antt =====
-- crates/desktop-client/src/app.rs: the views that are built from what the relay lists.
use teamview.Prelude.{
  ℕ, min, Bool, true, false, not, ◌&&◌, ◌||◌, Option, none, some, List, [], ◌∷◌, ◌++◌, ◌==◌, ltb,
  if◌then◌else◌, length, map, suc,
}
use teamview.Prelude.Text.{Text, text, decimal}
use teamview.Prelude.Words.{max_of}
use teamview.Protocol.Control.Names.{RoomId, UserId, is_screen, is_voice}
use teamview.Protocol.Control.Media.{StreamConfig}
use teamview.Protocol.Control.Rooms.{RoomSummary, ParticipantSummary, StreamSummary}
use teamview.Desktop.App.{
  ClientApp, ClientAppDiscovery, ConnectionStatus, ChannelView, ParticipantView, ScreenStreamView,
  VoiceStreamView, new_app, set_channels, select_channel,
}

unfoldable pub stream_config_for : StreamSummary → List StreamConfig → Option StreamConfig
stream_config_for stream [] = none
stream_config_for stream (c ∷ cs) =
    if c.room_id == stream.room_id && c.stream_id == stream.stream_id
    then some c
    else stream_config_for stream cs

unfoldable pub screen_view_of : StreamSummary → List StreamConfig → ScreenStreamView
screen_view_of stream configs =
    let config = stream_config_for stream configs in
    record {
      stream_id = stream.stream_id;
      publisher_id = stream.publisher_id;
      codec = stream.codec;
      title = text "Screen stream " ++ decimal stream.stream_id;
      width = elim config [ some c ↦ c.width | none ↦ 0 ];
      height = elim config [ some c ↦ c.height | none ↦ 0 ];
      frames_per_second = elim config [
        | some c ↦ c.frames_per_second
        | none ↦ stream.target_frames_per_second
      ];
      subscribed = false;
      rendered_frames = 0;
      dropped_frames = 0;
      latency_ms = 0;
      bitrate_bps = stream.target_bitrate_bps;
    }

unfoldable pub voice_view_of : StreamSummary → List StreamConfig → VoiceStreamView
voice_view_of stream configs =
    let config = stream_config_for stream configs in
    record {
      stream_id = stream.stream_id;
      publisher_id = stream.publisher_id;
      codec = stream.codec;
      frames_per_second = elim config [
        | some c ↦ c.frames_per_second
        | none ↦ stream.target_frames_per_second
      ];
      subscribed = false;
      decoded_frames = 0;
      dropped_frames = 0;
      latency_ms = 0;
      bitrate_bps = stream.target_bitrate_bps;
    }

-- A participant who publishes a screen.
unfoldable pub shares_screen : UserId → List StreamSummary → Bool
unfolding is_screen
shares_screen user_id [] = false
shares_screen user_id (s ∷ ss) =
    (s.publisher_id == user_id && is_screen s.media_kind) || shares_screen user_id ss

unfoldable pub participant_view_of : ParticipantSummary → List StreamSummary → ParticipantView
unfolding shares_screen
participant_view_of p streams = record {
  user_id = p.user_id;
  display_name = p.display_name;
  muted = p.muted;
  deafened = p.deafened;
  push_to_talk = p.push_to_talk;
  speaking = p.speaking;
  sharing_screen = shares_screen p.user_id streams;
}

-- `filter` and `min_by_key`: of the streams that pass, the first with the least id.
unfoldable pub least_stream : (StreamSummary → Bool) → List StreamSummary → Option StreamSummary
least_stream passes [] = none
least_stream passes (s ∷ ss) =
    let rest = least_stream passes ss in
    if passes s
    then elim rest [
      | none ↦ some s
      | some t ↦ if ltb t.stream_id s.stream_id then some t else some s
    ]
    else rest

abbrev is_nil : {A : Type 0} → List A → Bool
is_nil [] = true
is_nil (x ∷ xs) = false

unfoldable pub channel_view_of :
    RoomSummary → List StreamSummary → List StreamConfig → List ParticipantSummary → ChannelView
unfolding participant_view_of least_stream is_screen is_voice screen_view_of voice_view_of
channel_view_of room streams configs participants = record {
  channel_id = room.room_id;
  name = room.name;
  participant_count =
      if is_nil participants then room.participant_count else min (length participants) (max_of 32);
  published_stream_count = room.published_stream_count;
  participants = map (λ p. participant_view_of p streams) participants;
  screen_stream =
      elim (least_stream (λ s. s.room_id == room.room_id && is_screen s.media_kind) streams) [
        | none ↦ none
        | some s ↦ some (screen_view_of s configs)
      ];
  voice_stream =
      elim (least_stream (λ s. s.room_id == room.room_id && is_voice s.media_kind) streams) [
        | none ↦ none
        | some s ↦ some (voice_view_of s configs)
      ];
}

unfoldable pub new_channel_view : RoomId → Text → ChannelView
new_channel_view channel_id name = record {
  channel_id = channel_id;
  name = name;
  participant_count = 0;
  published_stream_count = 0;
  participants = [];
  screen_stream = none;
  voice_stream = none;
}

unfoldable pub active_speakers : List ParticipantView → ℕ
active_speakers [] = 0
active_speakers (p ∷ ps) =
    let rest = active_speakers ps in if p.speaking && not p.muted then suc rest else rest

unfoldable pub active_speaker_count : ChannelView → ℕ
unfolding active_speakers
active_speaker_count c = active_speakers c.participants

unfoldable pub any_sharing : List ParticipantView → Bool
any_sharing [] = false
any_sharing (p ∷ ps) = p.sharing_screen || any_sharing ps

unfoldable pub screen_share_active : ChannelView → Bool
unfolding any_sharing
screen_share_active c =
    elim c.screen_stream [ none ↦ false | some s ↦ true ] || any_sharing c.participants

-- `room.room_id == selected`, for a selection that may be missing.
unfoldable pub is_selected : RoomId → Option RoomId → Bool
is_selected room_id none = false
is_selected room_id (some selected) = room_id == selected

unfoldable pub first_room_id : List RoomSummary → Option RoomId
first_room_id [] = none
first_room_id (r ∷ rs) = some r.room_id

unfoldable pub discovered_selection : ClientAppDiscovery → Option RoomId
unfolding first_room_id
discovered_selection d = elim d.selected_channel_id [
  | some channel_id ↦ some channel_id
  | none ↦ first_room_id d.rooms
]

-- Only the selected room shows its streams and participants.
unfoldable pub discovered_channel : ClientAppDiscovery → RoomSummary → ChannelView
unfolding channel_view_of is_selected discovered_selection
discovered_channel d room =
    if is_selected room.room_id (discovered_selection d)
    then channel_view_of room d.streams d.stream_configs d.participants
    else channel_view_of room [] [] []

unfoldable pub select_if_some : ClientApp → Option RoomId → ClientApp
unfolding select_channel
select_if_some app none = app
select_if_some app (some channel_id) = (select_channel app channel_id).0

unfoldable pub from_discovery : ClientAppDiscovery → ClientApp
unfolding new_app discovered_channel discovered_selection set_channels select_if_some
from_discovery d =
    let app : ClientApp =
      set_channels
        (record (new_app d.role) {
          connection = ConnectionStatus.connected;
          relay_addr = d.relay_addr;
          status_line = text "Connected to " ++ d.relay_addr;
          local_user_id = d.local_user_id;
          local_voice = d.local_voice;
          local_screen_share = d.local_screen_share;
        })
        (map (discovered_channel d) d.rooms) in
    select_if_some app (discovered_selection d)
