-- ===== src/Relay/Tests/Control.antt =====
-- Instances of the theorems about messages in crates/relay-server/src/control.rs.
use teamview.Prelude.{
  ◌≡◌, ◌≤◌, ◌⊎◌, inr, refl, [], ◌∷◌, ◌==◌, ◌||◌, true, false, take, drop, min, max, if◌then◌else◌,
  arith,
}
use teamview.Prelude.BtreeMap
use teamview.Prelude.BtreeSet
use teamview.Prelude.Text.{eq_text}
use teamview.Protocol.Control.Names.{is_screen}
use teamview.Protocol.Control.Media.{RemoteInputKind, SendRemoteInput, PollRemoteInput}
use teamview.Protocol.Control.Envelope.{ClientControl, ClientEnvelope, new_envelope}
use teamview.Relay.Room.{is_subscriber}
use teamview.Relay.Session.{is_some, grant_access}
use teamview.Relay.Control.State.{requires_access_token}
use teamview.Relay.Control.Names.{
  sanitize_remote_input_kind, sanitize_display_name, sanitize_room_name,
}
use teamview.Relay.Control.Names.Clean.{IsClean, sanitized-IsClean}
use teamview.Relay.Control.Targets.{StreamTarget}
use teamview.Relay.Control.Targets.Bounds.{IsAllowed}
use teamview.Relay.Control.Feedback.{degraded_target}
use teamview.Relay.Control.Feedback.Adaptive.{rounds, degraded_target-bounds, rounds-floor}
use teamview.Relay.Control.Input.{send_remote_input, poll_remote_input, input_event}
use teamview.Relay.Control.Input.Fifo.{queue_of, with_event, AreQueuesBounded}
use teamview.Relay.Control.Input.Users.{
  IsSender, CanSend, IsPublisher, batch_of, send_remote_input-queues, send_remote_input-refused,
  poll_remote_input-batch, remote_input-AreQueuesBounded,
}
use teamview.Relay.Control.Handle.{
  dispatch, handle_client_envelope, authorization_error, is_open_message, authenticate,
  token_accepted,
}
use teamview.Relay.Control.Handle.Access.{
  is_authorized, denial, IsTokenHeld, handle-guarded, handle-access,
}
use teamview.Relay.Tests.Sample.{stream, the_room, token, state, session_of, envelope_of}

abbrev list_rooms : ClientEnvelope
list_rooms = envelope_of ClientControl.list_rooms

-- A user who has not handed over the token asks for the rooms.
handle-guarded_example : handle_client_envelope state (session_of 2 false) list_rooms 5 6 ≡ (
    let r = dispatch state (session_of 2 false) ClientControl.list_rooms 5 6 in
    if is_open_message ClientControl.list_rooms || is_authorized state (session_of 2 false)
    then (r.0, r.1, new_envelope 12 r.2)
    else (state, session_of 2 false, new_envelope 12 (denial (session_of 2 false))))
handle-guarded_example = handle-guarded state (session_of 2 false) list_rooms 5 6

abbrev with_token : ClientEnvelope
with_token = envelope_of (ClientControl.authenticate (record { token = token }))

required : requires_access_token state ≡ true
unfolding requires_access_token is_some
required = refl

granted : (handle_client_envelope state (session_of 2 false) with_token 5 6).1.access_granted ≡ true
unfolding handle_client_envelope authorization_error is_open_message dispatch authenticate
    grant_access token_accepted eq_text
granted = refl

handle-access_example : IsTokenHeld state with_token.message
handle-access_example =
    handle-access state (session_of 2 false) with_token 5 6 required refl granted

abbrev press : SendRemoteInput
press = record {
  room_id = 1;
  stream_id = 7;
  sequence_number = 3;
  event_time_micros = 0;
  kind = RemoteInputKind.key 65 true;
}

press-IsSender :
    IsSender state (session_of 2 true) press 2 the_room stream (RemoteInputKind.key 65 true)
unfolding BtreeMap.lookup BtreeSet.contains is_screen is_subscriber sanitize_remote_input_kind
press-IsSender = record {
  identified = refl;
  in_room = refl;
  joined = refl;
  published = refl;
  screen = refl;
  subscribed = refl;
  cleaned = refl;
}

send_remote_input-queues_example :
    queue_of (send_remote_input state (session_of 2 true) press 500).0 7 ≡ (
      if 7 == 7
      then with_event (input_event 2 press (RemoteInputKind.key 65 true) 500) (queue_of state 7)
      else queue_of state 7)
send_remote_input-queues_example =
    send_remote_input-queues state (session_of 2 true) press 500 2 the_room stream
      (RemoteInputKind.key 65 true) press-IsSender 7

-- The publisher may not send input to itself.
send_remote_input-refused_example :
    CanSend state (session_of 1 true) press
    ⊎ ((send_remote_input state (session_of 1 true) press 500).0 ≡ state)
send_remote_input-refused_example = send_remote_input-refused state (session_of 1 true) press 500

abbrev poll : PollRemoteInput
poll = record { room_id = 1; stream_id = 7; max_events = 100 }

poll-IsPublisher : IsPublisher state (session_of 1 true) poll 1 the_room stream
unfolding BtreeMap.lookup is_screen
poll-IsPublisher = record {
  identified = refl;
  in_room = refl;
  published = refl;
  own = refl;
  screen = refl;
}

poll_remote_input-batch_example :
    ((poll_remote_input state (session_of 1 true) poll).1
      ≡ batch_of poll (take (min (max 100 1) 64) (queue_of state 7)))
    × (queue_of (poll_remote_input state (session_of 1 true) poll).0 7
        ≡ (if 7 == 7 then drop (min (max 100 1) 64) (queue_of state 7) else queue_of state 7))
poll_remote_input-batch_example =
    poll_remote_input-batch state (session_of 1 true) poll 1 the_room stream poll-IsPublisher 7

no_queues : AreQueuesBounded state
unfolding BtreeMap.get_or BtreeMap.lookup
no_queues q = omega arith

remote_input-AreQueuesBounded_example :
    AreQueuesBounded (send_remote_input state (session_of 2 true) press 500).0
    × AreQueuesBounded (poll_remote_input state (session_of 2 true) poll).0
remote_input-AreQueuesBounded_example =
    remote_input-AreQueuesBounded state (session_of 2 true) press poll 500 no_queues

abbrev target : StreamTarget
target = record { bitrate_bps = 16010; frames_per_second = 30; width = 1280; height = 720 }

target-IsAllowed : IsAllowed target
target-IsAllowed = record {
  bitrate_low = omega arith;
  bitrate_high = omega arith;
  frames_low = omega arith;
  frames_high = omega arith;
  resolution = record { picture = inr (omega arith, omega arith, omega arith, omega arith) };
}

degraded_target-bounds_example :
    IsAllowed (degraded_target target)
    × ((degraded_target target).bitrate_bps ≤ target.bitrate_bps)
    × ((degraded_target target).frames_per_second ≤ target.frames_per_second)
    × ((degraded_target target).width ≤ target.width)
    × ((degraded_target target).height ≤ target.height)
degraded_target-bounds_example = degraded_target-bounds target target-IsAllowed

rounds-floor_example : (rounds 10 target).bitrate_bps ≡ 16000
rounds-floor_example = rounds-floor 10 target target-IsAllowed (omega arith)

sanitized-IsClean_example :
    IsClean 64 (sanitize_display_name (32 ∷ 7 ∷ 65 ∷ []) 3)
    × IsClean 64 (sanitize_room_name (32 ∷ 7 ∷ 65 ∷ []) 3)
sanitized-IsClean_example = sanitized-IsClean (32 ∷ 7 ∷ 65 ∷ []) 3
