-- ===== src/Relay/Tests/Rooms.antt =====
-- Instances of the theorems about the rooms of crates/relay-server/src/control.rs.
use teamview.Prelude.{◌≡◌, [], ◌∷◌, true, some, none}
use teamview.Prelude.BtreeMap
use teamview.Prelude.BtreeMap.{Map}
use teamview.Protocol.Codec.{CodecId}
use teamview.Protocol.Control.Names.{RoomId, StreamId, MediaKind}
use teamview.Protocol.Control.Media.{ViewerStatsReport}
use teamview.Protocol.Control.Envelope.{ClientControl}
use teamview.Relay.Room.{Room}
use teamview.Relay.Control.State.{ControlState, new_state, published_stream}
use teamview.Relay.Control.Targets.{stream_target}
use teamview.Relay.Control.Targets.Bounds.{IsAllowed}
use teamview.Relay.Control.Rooms.Reported.{IsTargetedIfAny, reachable-IsTargeted}
use teamview.Relay.Control.Membership.{disconnect_user}
use teamview.Relay.Control.Handle.{handle_client_envelope}
use teamview.Relay.Control.Rooms.{IsConsistent}
use teamview.Relay.Control.Rooms.Disconnect.{IsAbsent, disconnect_user-gone}
use teamview.Relay.Control.Rooms.History.{Reachable, started, handled, reachable-IsConsistent}
use teamview.Relay.Tests.Sample.{session_of, envelope_of}

-- The first user makes a room and publishes a screen in it.
abbrev with_room : ControlState
with_room =
    (handle_client_envelope new_state (session_of 1 true)
      (envelope_of (ClientControl.create_room (record { name = 97 ∷ [] }))) 5 6).0

abbrev publish : ClientControl
publish =
    ClientControl.publish_stream
      (record { room_id = 1; stream_id = 7; media_kind = MediaKind.screen; codec = CodecId.h264 })

abbrev with_stream : ControlState
with_stream = (handle_client_envelope with_room (session_of 1 true) (envelope_of publish) 7 8).0

abbrev with_stream_history : Reachable with_stream
with_stream_history = handled (session_of 1 true) (envelope_of publish) 7 8 (
    handled (session_of 1 true)
      (envelope_of (ClientControl.create_room (record { name = 97 ∷ [] }))) 5 6 started)

reachable-IsConsistent_example : IsConsistent with_stream
reachable-IsConsistent_example = reachable-IsConsistent with_stream with_stream_history

with_room-IsConsistent : IsConsistent with_room
with_room-IsConsistent = reachable-IsConsistent with_room (
    handled (session_of 1 true)
      (envelope_of (ClientControl.create_room (record { name = 97 ∷ [] }))) 5 6 started)

disconnect_user-gone_example :
    ((q : RoomId) (r : Room)
      → BtreeMap.lookup q (disconnect_user with_room 1).rooms ≡ some r
      → IsAbsent 1 r)
    × (BtreeMap.lookup 1 (disconnect_user with_room 1).display_names ≡ none)
    × ((k : StreamId) (reports : Map ViewerStatsReport)
        → BtreeMap.lookup k (disconnect_user with_room 1).viewer_stats ≡ some reports
        → BtreeMap.lookup 1 reports ≡ none)
disconnect_user-gone_example = disconnect_user-gone with_room 1 with_room-IsConsistent

-- A configuration out of range, from the publisher.
abbrev configure : ClientControl
configure = ClientControl.set_stream_config (record {
  room_id = 1;
  stream_id = 7;
  codec = CodecId.h264;
  width = 100;
  height = 9000;
  frames_per_second = 200;
  timebase_hz = 90000;
})

abbrev configured : ControlState
configured = (handle_client_envelope with_stream (session_of 1 true) (envelope_of configure) 9 9).0

configured_history : Reachable configured
configured_history = handled (session_of 1 true) (envelope_of configure) 9 9 with_stream_history

reachable-IsTargeted_example :
    IsAllowed (stream_target configured 7) × IsTargetedIfAny (published_stream configured 7)
reachable-IsTargeted_example = reachable-IsTargeted configured 7 configured_history
