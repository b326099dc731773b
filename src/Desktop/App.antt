-- ===== src/Desktop/App.antt =====
-- crates/desktop-client/src/app.rs: what the client shows and what the user has chosen.
pub mod Discovery
pub mod Selection
use teamview.Prelude.{
  ℕ, min, Bool, true, false, not, ◌&&◌, ◌||◌, Option, none, some, List, [], ◌∷◌, ◌++◌, ◌==◌, ltb,
  if◌then◌else◌, length, map,
}
use teamview.Prelude.Text.{Text, text, decimal}
use teamview.Prelude.Words.{max_of}
use teamview.Protocol.Codec.{CodecId}
use teamview.Protocol.Control.Names.{RoomId, UserId, StreamId, MediaKind, is_screen, is_voice}
use teamview.Protocol.Control.Media.{StreamConfig}
use teamview.Protocol.Control.Rooms.{RoomSummary, ParticipantSummary, StreamSummary}

pub data ClientRole : Type 0 where
  broadcaster viewer : ClientRole

pub data ConnectionStatus : Type 0 where
  disconnected connecting connected : ConnectionStatus

pub record ParticipantView : Type 0 where
  pub user_id : UserId
  pub display_name : Text
  pub muted : Bool
  pub deafened : Bool
  pub push_to_talk : Bool
  pub speaking : Bool
  pub sharing_screen : Bool

pub record ScreenStreamView : Type 0 where
  pub stream_id : StreamId
  pub publisher_id : UserId
  pub codec : CodecId
  pub title : Text
  pub width : ℕ
  pub height : ℕ
  pub frames_per_second : ℕ
  pub subscribed : Bool
  pub rendered_frames : ℕ
  pub dropped_frames : ℕ
  pub latency_ms : ℕ
  pub bitrate_bps : ℕ

pub record VoiceStreamView : Type 0 where
  pub stream_id : StreamId
  pub publisher_id : UserId
  pub codec : CodecId
  pub frames_per_second : ℕ
  pub subscribed : Bool
  pub decoded_frames : ℕ
  pub dropped_frames : ℕ
  pub latency_ms : ℕ
  pub bitrate_bps : ℕ

pub record ChannelView : Type 0 where
  pub channel_id : RoomId
  pub name : Text
  pub participant_count : ℕ
  pub published_stream_count : ℕ
  pub participants : List ParticipantView
  pub screen_stream : Option ScreenStreamView
  pub voice_stream : Option VoiceStreamView

pub record VoiceControlState : Type 0 where
  pub muted : Bool
  pub deafened : Bool
  pub push_to_talk : Bool
  pub ptt_active : Bool
  pub input_label : Text
  pub output_label : Text

pub record ScreenShareControlState : Type 0 where
  pub sharing : Bool
  pub stream_id : StreamId
  pub source_label : Text
  pub target_width : ℕ
  pub target_height : ℕ
  pub target_fps : ℕ

pub record ClientApp : Type 0 where
  pub role : ClientRole
  pub connection : ConnectionStatus
  pub relay_addr : Text
  pub local_user_id : Option UserId
  pub selected_channel_id : Option RoomId
  pub channels : List ChannelView
  pub local_voice : VoiceControlState
  pub local_screen_share : ScreenShareControlState
  pub status_line : Text

pub record ClientAppDiscovery : Type 0 where
  pub role : ClientRole
  pub relay_addr : Text
  pub local_user_id : Option UserId
  pub selected_channel_id : Option RoomId
  pub rooms : List RoomSummary
  pub streams : List StreamSummary
  pub stream_configs : List StreamConfig
  pub participants : List ParticipantSummary
  pub local_voice : VoiceControlState
  pub local_screen_share : ScreenShareControlState

unfoldable pub default_voice_control : VoiceControlState
default_voice_control = record {
  muted = false;
  deafened = false;
  push_to_talk = false;
  ptt_active = false;
  input_label = text "Default microphone";
  output_label = text "Default speaker";
}

unfoldable pub default_screen_share : ScreenShareControlState
default_screen_share = record {
  sharing = false;
  stream_id = 1;
  source_label = text "Primary monitor";
  target_width = 1280;
  target_height = 720;
  target_fps = 30;
}

unfoldable pub new_app : ClientRole → ClientApp
unfolding default_voice_control default_screen_share
new_app role = record {
  role = role;
  connection = ConnectionStatus.disconnected;
  relay_addr = text "127.0.0.1:4433";
  local_user_id = none;
  selected_channel_id = none;
  channels = [];
  local_voice = default_voice_control;
  local_screen_share = default_screen_share;
  status_line = text "Disconnected";
}

-- `ClientApp::connecting`
unfoldable pub begin_connecting : ClientApp → Text → ClientApp
begin_connecting app relay_addr = record app {
  connection = ConnectionStatus.connecting;
  relay_addr = relay_addr;
  status_line = text "Connecting to " ++ relay_addr;
}

-- `ClientApp::connected`
unfoldable pub mark_connected : ClientApp → ClientApp
mark_connected app = record app {
  connection = ConnectionStatus.connected;
  status_line = text "Connected to " ++ app.relay_addr;
}

-- `ClientApp::disconnected`
unfoldable pub mark_disconnected : ClientApp → ClientApp
mark_disconnected app = record app {
  connection = ConnectionStatus.disconnected;
  selected_channel_id = none;
  status_line = text "Disconnected";
}

-- `channels.iter().any(|channel| channel.channel_id == channel_id)`
unfoldable pub has_channel : RoomId → List ChannelView → Bool
has_channel channel_id [] = false
has_channel channel_id (c ∷ cs) = (c.channel_id == channel_id) || has_channel channel_id cs

unfoldable pub first_channel_id : List ChannelView → Option RoomId
first_channel_id [] = none
first_channel_id (c ∷ cs) = some c.channel_id

-- The choice if it is still among the channels, else the first channel.
unfoldable pub kept_selection : Option RoomId → List ChannelView → Option RoomId
unfolding has_channel first_channel_id
kept_selection none channels = first_channel_id channels
kept_selection (some channel_id) channels =
    if has_channel channel_id channels then some channel_id else first_channel_id channels

unfoldable pub set_channels : ClientApp → List ChannelView → ClientApp
unfolding kept_selection
set_channels app channels = record app {
  channels = channels;
  selected_channel_id = kept_selection app.selected_channel_id channels;
}

unfoldable pub select_channel : ClientApp → RoomId → ClientApp × Bool
unfolding has_channel
select_channel app channel_id =
    if has_channel channel_id app.channels
    then (record app { selected_channel_id = some channel_id }, true)
    else (app, false)

unfoldable pub find_channel : RoomId → List ChannelView → Option ChannelView
find_channel channel_id [] = none
find_channel channel_id (c ∷ cs) =
    if c.channel_id == channel_id then some c else find_channel channel_id cs

unfoldable pub selected_channel : ClientApp → Option ChannelView
unfolding find_channel
selected_channel app = elim app.selected_channel_id [
  | none ↦ none
  | some channel_id ↦ find_channel channel_id app.channels
]

unfoldable pub set_muted : ClientApp → Bool → ClientApp
set_muted app muted = record app {
  local_voice = record app.local_voice {
    muted = muted;
    ptt_active = if muted then false else app.local_voice.ptt_active;
  };
}

unfoldable pub set_deafened : ClientApp → Bool → ClientApp
unfolding set_muted
set_deafened app deafened =
    let app' : ClientApp = record app {
      local_voice = record app.local_voice { deafened = deafened };
    } in
    if deafened then set_muted app' true else app'

unfoldable pub set_push_to_talk : ClientApp → Bool → ClientApp
set_push_to_talk app enabled = record app {
  local_voice = record app.local_voice {
    push_to_talk = enabled;
    ptt_active = if not enabled then false else app.local_voice.ptt_active;
  };
}

unfoldable pub set_ptt_active : ClientApp → Bool → ClientApp
set_ptt_active app active = record app {
  local_voice = record app.local_voice {
    ptt_active = active && app.local_voice.push_to_talk && not app.local_voice.muted;
  };
}

unfoldable pub local_speaking : ClientApp → Bool
local_speaking app =
    not app.local_voice.muted && (not app.local_voice.push_to_talk || app.local_voice.ptt_active)

unfoldable pub start_screen_share : ClientApp → Text → ClientApp
start_screen_share app source_label = record app {
  local_screen_share = record app.local_screen_share {
    sharing = true;
    source_label = source_label;
  };
}

unfoldable pub stop_screen_share : ClientApp → ClientApp
stop_screen_share app = record app {
  local_screen_share = record app.local_screen_share { sharing = false };
}
