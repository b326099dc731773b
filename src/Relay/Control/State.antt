-- ===== src/Relay/Control/State.antt =====
-- crates/relay-server/src/control.rs: the state of the control plane and what is looked up in it.
use teamview.Prelude.{
  Bool, true, false, Option, none, some, List, [], ◌∷◌, ◌++◌, String, find_map, if◌then◌else◌,
}
use teamview.Prelude.BtreeMap
use teamview.Prelude.BtreeMap.{Map}
use teamview.Prelude.Text.{Text, text, decimal}
use teamview.Protocol.Control.Names.{RoomId, UserId, StreamId, KeyframeReason}
use teamview.Protocol.Control.Media.{ViewerStatsReport, RemoteInputEvent}
use teamview.Protocol.Control.Rooms.{VoiceState}
use teamview.Protocol.Control.Envelope.{ServerControl}
use teamview.Relay.Room.{Room, PublishedStream, subscribers}
use teamview.Relay.Metrics.{StreamForwardingMetrics}
use teamview.Relay.Config.{ControlLimits, default_limits, sanitized}
use teamview.Relay.Session.{is_some}

pub record ControlState : Type 0 where
  pub rooms : Map Room
  pub display_names : Map Text
  pub viewer_stats : Map (Map ViewerStatsReport)
  pub voice_states : Map (Map VoiceState)
  pub pending_keyframe_requests : Map KeyframeReason
  pub pending_remote_input : Map (List RemoteInputEvent)
  pub stream_metrics : Map StreamForwardingMetrics
  pub access_token : Option Text
  pub limits : ControlLimits
  pub next_room_id : RoomId
  pub next_user_id : UserId

-- `ControlState::new`
unfoldable pub new_state : ControlState
unfolding default_limits
new_state = record {
  rooms = [];
  display_names = [];
  viewer_stats = [];
  voice_states = [];
  pending_keyframe_requests = [];
  pending_remote_input = [];
  stream_metrics = [];
  access_token = none;
  limits = default_limits;
  next_room_id = 1;
  next_user_id = 1;
}

unfoldable pub with_access_token : Text → ControlState
unfolding new_state
with_access_token access_token = record new_state { access_token = some access_token }

unfoldable pub with_limits : ControlLimits → ControlState
unfolding new_state
with_limits limits = record new_state { limits = sanitized limits }

unfoldable pub with_access_token_and_limits : Text → ControlLimits → ControlState
unfolding with_limits
with_access_token_and_limits access_token limits = record (with_limits limits) {
  access_token = some access_token;
}

-- `ServerControl::Error(ControlError::new(code, message))`
unfoldable pub refusal : String → String → ServerControl
refusal code message = ServerControl.error (record { code = text code; message = text message })

-- The checks of a handler: it goes on, or returns its error.
pub data Check (A : Type 0) : Type 0 where
  passed : A → Check A
  refused : ServerControl → Check A

infixl 5 ◌>>=◌ ◌>>◌
abbrev pub ◌>>=◌ : {A B : Type 0} → Check A → (A → Check B) → Check B
passed a >>= f = f a
refused e >>= f = refused e

abbrev pub ◌>>◌ : {B : Type 0} → Check (Unit {0}) → Check B → Check B
m >> k = m >>= λ _. k

-- `let Some(a) = o else { return error }`
abbrev pub some_or : {A : Type 0} → Option A → ServerControl → Check A
some_or (some a) e = passed a
some_or none e = refused e

-- `if !b { return error }`
abbrev pub require : Bool → ServerControl → Check (Unit {0})
require true e = passed tt
require false e = refused e

abbrev pub unauthenticated : ServerControl
unauthenticated = refusal "unauthenticated" "send Hello first"

abbrev pub room_not_found : ServerControl
room_not_found = refusal "room_not_found" "room does not exist"

abbrev pub stream_not_found : ServerControl
stream_not_found = refusal "stream_not_found" "stream does not exist"

-- A handler's early returns leave the state as it was.
abbrev pub answer :
    ControlState → Check (ControlState × ServerControl) → ControlState × ServerControl
answer s (passed r) = r
answer s (refused e) = (s, e)

unfoldable pub requires_access_token : ControlState → Bool
unfolding is_some
requires_access_token s = is_some s.access_token

unfoldable pub room : ControlState → RoomId → Option Room
room s room_id = BtreeMap.lookup room_id s.rooms

unfoldable pub published_stream : ControlState → StreamId → Option PublishedStream
published_stream s stream_id =
    find_map (λ r. BtreeMap.lookup stream_id r.published_streams) (BtreeMap.values s.rooms)

unfoldable pub publisher_for_stream : ControlState → StreamId → Option UserId
publisher_for_stream s stream_id = elim (published_stream s stream_id) [
  | some stream ↦ some stream.publisher_id
  | none ↦ none
]

-- The subscribers of every room that publishes the stream.
unfoldable pub subscribers_in : StreamId → List Room → List UserId
subscribers_in stream_id [] = []
subscribers_in stream_id (r ∷ rs) =
    let rest = subscribers_in stream_id rs in
    if BtreeMap.contains_key stream_id r.published_streams
    then subscribers r stream_id ++ rest
    else rest

unfoldable pub subscribers_for_stream : ControlState → StreamId → List UserId
unfolding subscribers_in
subscribers_for_stream s stream_id = subscribers_in stream_id (BtreeMap.values s.rooms)

unfoldable pub display_name_for_user : ControlState → UserId → Text
display_name_for_user s user_id = elim (BtreeMap.lookup user_id s.display_names) [
  | some name ↦ name
  | none ↦ text "user-" ++ decimal user_id
]
