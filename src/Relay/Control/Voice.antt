-- ===== src/Relay/Control/Voice.antt =====
-- crates/relay-server/src/control.rs: voice states of a room's participants.
use teamview.Prelude.{
  Bool, true, false, not, ◌&&◌, ◌||◌, Option, none, some, [], ◌∷◌, if◌then◌else◌,
}
use teamview.Prelude.BtreeMap
use teamview.Prelude.BtreeMap.{Map}
use teamview.Prelude.BtreeSet
use teamview.Protocol.Control.Names.{RoomId, UserId, StreamId}
use teamview.Protocol.Control.Rooms.{VoiceState, SetVoiceState}
use teamview.Protocol.Control.Envelope.{ServerControl}
use teamview.Relay.Room.{Room}
use teamview.Relay.Session.{Session}
use teamview.Relay.Control.State.{
  ControlState, passed, ◌>>=◌, ◌>>◌, some_or, require, answer, refusal, unauthenticated,
  room_not_found,
}

unfoldable pub voice_state : ControlState → RoomId → UserId → Option VoiceState
voice_state s room_id user_id = elim (BtreeMap.lookup room_id s.voice_states) [
  | some states ↦ BtreeMap.lookup user_id states
  | none ↦ none
]

-- The first room that publishes the stream.
unfoldable pub room_id_of_stream : StreamId → Map Room → Option RoomId
room_id_of_stream stream_id [] = none
room_id_of_stream stream_id ((room_id, r) ∷ rs) =
    if BtreeMap.contains_key stream_id r.published_streams
    then some room_id
    else room_id_of_stream stream_id rs

unfoldable pub voice_state_for_stream : ControlState → StreamId → UserId → Option VoiceState
unfolding room_id_of_stream
voice_state_for_stream s stream_id user_id = elim (room_id_of_stream stream_id s.rooms) [
  | some room_id ↦ voice_state s room_id user_id
  | none ↦ none
]

unfoldable pub voice_publisher_can_send : ControlState → StreamId → UserId → Bool
voice_publisher_can_send s stream_id user_id = elim (voice_state_for_stream s stream_id user_id) [
  | some v ↦ not v.muted && (not v.push_to_talk || v.speaking)
  | none ↦ true
]

-- What a participant starts with.
unfoldable pub default_voice_state : RoomId → UserId → VoiceState
default_voice_state room_id user_id = record {
  room_id = room_id;
  user_id = user_id;
  muted = false;
  deafened = false;
  push_to_talk = false;
  speaking = true;
}

unfoldable pub ensure_voice_state : ControlState → RoomId → UserId → ControlState
unfolding default_voice_state
ensure_voice_state s room_id user_id =
    let states = BtreeMap.get_or room_id [] s.voice_states in
    let states' =
      if BtreeMap.contains_key user_id states
      then states
      else BtreeMap.insert user_id (default_voice_state room_id user_id) states in
    record s { voice_states = BtreeMap.insert room_id states' s.voice_states }

unfoldable pub remove_voice_state : ControlState → RoomId → UserId → ControlState
remove_voice_state s room_id user_id = elim (BtreeMap.lookup room_id s.voice_states) [
  | none ↦ s
  | some states ↦
      let rest = BtreeMap.remove user_id states in
      if BtreeMap.is_empty rest
      then record s { voice_states = BtreeMap.remove room_id s.voice_states }
      else record s { voice_states = BtreeMap.insert room_id rest s.voice_states }
]

unfoldable pub requested_voice_state : SetVoiceState → UserId → VoiceState
requested_voice_state request user_id = record {
  room_id = request.room_id;
  user_id = user_id;
  muted = request.muted;
  deafened = request.deafened;
  push_to_talk = request.push_to_talk;
  speaking = request.speaking && not request.muted;
}

unfoldable pub set_voice_state :
    ControlState → Session → SetVoiceState → ControlState × ServerControl
unfolding requested_voice_state
set_voice_state s session request = answer s do
  user_id ← some_or session.user_id unauthenticated
  room ← some_or (BtreeMap.lookup request.room_id s.rooms) room_not_found
  require (BtreeSet.contains user_id room.participants)
      (refusal "not_in_room" "join room before updating voice state")
  let v = requested_voice_state request user_id
  let states = BtreeMap.insert user_id v (BtreeMap.get_or request.room_id [] s.voice_states)
  passed (
    record s { voice_states = BtreeMap.insert request.room_id states s.voice_states },
    ServerControl.voice_state_updated v,
  )
