-- ===== src/Relay/Control/Rooms/History.antt =====
-- The rooms of crates/relay-server/src/control.rs over any history of the relay: its messages, its
-- disconnects and its forwarded packets.
use Prim.Native.Nat.{ℕ}
use teamview.Prelude.{◌≡◌, ◌≤◌, refl, [], ◌==◌, ◌||◌, arith, Option-cases, Bool-cases, inl, inr}
use teamview.Prelude.BtreeMap
use teamview.Prelude.BtreeSet
use teamview.Prelude.Text.{Text}
use teamview.Protocol.Packet.{MediaPacket}
use teamview.Protocol.Control.Names.{UserId, is_screen}
use teamview.Protocol.Control.Envelope.{ClientControl, ServerControl, ClientEnvelope}
use teamview.Protocol.Control.Media.{
  SendRemoteInput, PollRemoteInput, RequestKeyframe, ViewerStatsReport,
}
use teamview.Protocol.Control.Rooms.{SetVoiceState, LeaveRoom, Hello}
use teamview.Relay.Config.{ControlLimits, default_limits, sanitized}
use teamview.Relay.Session.{Session}
use teamview.Relay.Room.{is_subscriber}
use teamview.Relay.Control.State.{
  ControlState, new_state, with_access_token, with_limits, with_access_token_and_limits,
}
use teamview.Relay.Control.Checks.{answer-some_or, answer-require, answer-check}
use teamview.Relay.Control.Names.{sanitize_remote_input_kind}
use teamview.Relay.Control.Voice.{set_voice_state}
use teamview.Relay.Control.Membership.{handle_leave_room, disconnect_user}
use teamview.Relay.Control.Streams.{request_keyframe, register_keyframe_request}
use teamview.Relay.Control.Input.{
  send_remote_input, poll_remote_input, validate_remote_input_publisher, next_batch, keep_queue,
}
use teamview.Relay.Control.Feedback.{
  viewer_stats, store_report, record_media_forward_summary, MediaForwardSummary,
}
use teamview.Relay.Control.Handle.{
  dispatch, handle_client_envelope, hello, hello_again, hello_first, is_open_message,
}
use teamview.Relay.Control.Handle.Access.{handle-guarded, is_authorized}
use teamview.Relay.Control.Rooms.{IsConsistent}
use teamview.Relay.Control.Rooms.Steps.{
  create_room-IsConsistent, join_room-IsConsistent, publish_stream-IsConsistent,
}
use teamview.Relay.Control.Rooms.Streams.{
  set_stream_config-IsConsistent, unpublish_stream-IsConsistent, subscribe_stream-IsConsistent,
}
use teamview.Relay.Control.Rooms.Leaving.{leave_room-IsConsistent, unsubscribe_stream-IsConsistent}
use teamview.Relay.Control.Rooms.Disconnect.{disconnect_user-IsConsistent}
use teamview.Relay.Control.Rooms.Messages.{
  poll_publisher_feedback-IsConsistent, set_target_bitrate-IsConsistent,
  set_target_framerate-IsConsistent,
}

abbrev Keeps : ControlState × ServerControl → Type 0
Keeps o = IsConsistent o.0

-- The states that a relay can be in.
pub data Reachable : ControlState → Type 0 where
  started : Reachable new_state
  started_with_token : (token : Text) → Reachable (with_access_token token)
  started_with_limits : (limits : ControlLimits) → Reachable (with_limits limits)
  started_with_both :
      (token : Text) (limits : ControlLimits)
      → Reachable (with_access_token_and_limits token limits)
  handled :
      {s : ControlState} (session : Session) (envelope : ClientEnvelope) (now later : ℕ)
      → Reachable s
      → Reachable (handle_client_envelope s session envelope now later).0
  disconnected :
      {s : ControlState} (user_id : UserId) → Reachable s → Reachable (disconnect_user s user_id)
  forwarded :
      {s : ControlState} (packet : MediaPacket) (summary : MediaForwardSummary)
      (ingress_bytes received_at_micros server_route_ms : ℕ)
      → Reachable s
      → Reachable (
          record_media_forward_summary s packet summary ingress_bytes received_at_micros
            server_route_ms)

hello-IsConsistent :
    (s : ControlState) (session : Session) (m : Hello)
    → IsConsistent s
    → IsConsistent (hello s session m).0
unfolding hello hello_again hello_first
hello-IsConsistent s session m c = record { rooms_consistent = ground (arith, c.rooms_consistent) }

set_voice_state-IsConsistent :
    (s : ControlState) (session : Session) (request : SetVoiceState)
    → IsConsistent s
    → IsConsistent (set_voice_state s session request).0
unfolding set_voice_state
set_voice_state-IsConsistent s session request c =
    answer-some_or s Keeps (λ e. c) session.user_id _ _
      λ user_id identified.
        answer-some_or s Keeps (λ e. c) (BtreeMap.lookup request.room_id s.rooms) _ _
          λ r found.
            answer-require s Keeps (λ e. c) (BtreeSet.contains user_id r.participants) _ _
              λ joined. record { rooms_consistent = c.rooms_consistent }

request_keyframe-IsConsistent :
    (s : ControlState) (session : Session) (request : RequestKeyframe)
    → IsConsistent s
    → IsConsistent (request_keyframe s session request).0
unfolding request_keyframe register_keyframe_request
request_keyframe-IsConsistent s session request c =
    answer-some_or s Keeps (λ e. c) session.user_id _ _
      λ user_id identified.
        answer-some_or s Keeps (λ e. c) (BtreeMap.lookup request.room_id s.rooms) _ _
          λ r found.
            answer-require s Keeps (λ e. c) (BtreeSet.contains user_id r.participants) _ _
              λ joined.
                answer-some_or s Keeps (λ e. c)
                  (BtreeMap.lookup request.stream_id r.published_streams) _ _
                  λ stream published.
                    answer-require s Keeps (λ e. c)
                      (stream.publisher_id == user_id || is_subscriber r request.stream_id user_id)
                      _ _ λ may. record { rooms_consistent = c.rooms_consistent }

send_remote_input-IsConsistent :
    (s : ControlState) (session : Session) (input : SendRemoteInput) (now : ℕ)
    → IsConsistent s
    → IsConsistent (send_remote_input s session input now).0
unfolding send_remote_input
send_remote_input-IsConsistent s session input now c =
    answer-some_or s Keeps (λ e. c) session.user_id _ _
      λ user_id identified.
        answer-some_or s Keeps (λ e. c) (BtreeMap.lookup input.room_id s.rooms) _ _
          λ r found.
            answer-require s Keeps (λ e. c) (BtreeSet.contains user_id r.participants) _ _
              λ joined.
                answer-some_or s Keeps (λ e. c)
                  (BtreeMap.lookup input.stream_id r.published_streams) _ _
                  λ stream published.
                    answer-require s Keeps (λ e. c) (is_screen stream.media_kind) _ _
                      λ screen.
                        answer-require s Keeps (λ e. c) (is_subscriber r input.stream_id user_id) _
                          _
                          λ subscribed.
                            answer-some_or s Keeps (λ e. c) (sanitize_remote_input_kind input.kind)
                              _ _ λ kind cleaned. record { rooms_consistent = c.rooms_consistent }

poll_remote_input-IsConsistent :
    (s : ControlState) (session : Session) (poll : PollRemoteInput)
    → IsConsistent s
    → IsConsistent (poll_remote_input s session poll).0
unfolding poll_remote_input next_batch keep_queue
poll_remote_input-IsConsistent s session poll c =
    answer-check s Keeps (λ e. c)
      (validate_remote_input_publisher s session poll.room_id poll.stream_id) _
      λ u valid. record { rooms_consistent = ground (arith, c.rooms_consistent) }

viewer_stats-IsConsistent :
    (s : ControlState) (session : Session) (report : ViewerStatsReport)
    → IsConsistent s
    → IsConsistent (viewer_stats s session report).0
unfolding viewer_stats store_report
viewer_stats-IsConsistent s session report c = record {
  rooms_consistent = ground (arith, c.rooms_consistent);
}

handle_leave_room-IsConsistent :
    (s : ControlState) (session : Session) (request : LeaveRoom)
    → IsConsistent s
    → IsConsistent (handle_leave_room s session request).0
unfolding handle_leave_room
handle_leave_room-IsConsistent s session request c = elim (Option-cases session.user_id) [
  | inl e ↦ rw (handle_leave_room, e) c
  | inr (user_id, e) ↦
      rw (handle_leave_room, e) (leave_room-IsConsistent s user_id request.room_id c)
]

dispatch-IsConsistent :
    (s : ControlState) (session : Session) (message : ClientControl) (now later : ℕ)
    → IsConsistent s
    → IsConsistent (dispatch s session message now later).0
unfolding dispatch
dispatch-IsConsistent s session (ClientControl.create_room m) now later c =
    create_room-IsConsistent s session m c
dispatch-IsConsistent s session (ClientControl.join_room m) now later c =
    join_room-IsConsistent s session m c
dispatch-IsConsistent s session (ClientControl.publish_stream m) now later c =
    publish_stream-IsConsistent s session m c
dispatch-IsConsistent s session (ClientControl.unpublish_stream m) now later c =
    unpublish_stream-IsConsistent s session m c
dispatch-IsConsistent s session (ClientControl.subscribe_stream m) now later c =
    subscribe_stream-IsConsistent s session m c
dispatch-IsConsistent s session (ClientControl.unsubscribe_stream m) now later c =
    unsubscribe_stream-IsConsistent s session m c
dispatch-IsConsistent s session (ClientControl.set_voice_state m) now later c =
    set_voice_state-IsConsistent s session m c
dispatch-IsConsistent s session (ClientControl.set_stream_config m) now later c =
    set_stream_config-IsConsistent s session m c
dispatch-IsConsistent s session (ClientControl.request_keyframe m) now later c =
    request_keyframe-IsConsistent s session m c
dispatch-IsConsistent s session (ClientControl.poll_remote_input m) now later c =
    poll_remote_input-IsConsistent s session m c
dispatch-IsConsistent s session (ClientControl.viewer_stats m) now later c =
    viewer_stats-IsConsistent s session m c
dispatch-IsConsistent s session (ClientControl.poll_publisher_feedback m) now later c =
    poll_publisher_feedback-IsConsistent s session m c
dispatch-IsConsistent s session (ClientControl.set_target_bitrate m) now later c =
    set_target_bitrate-IsConsistent s session m c
dispatch-IsConsistent s session (ClientControl.set_target_framerate m) now later c =
    set_target_framerate-IsConsistent s session m c
dispatch-IsConsistent s session (ClientControl.hello m) now later c =
    hello-IsConsistent s session m c
dispatch-IsConsistent s session (ClientControl.leave_room m) now later c =
    handle_leave_room-IsConsistent s session m c
dispatch-IsConsistent s session (ClientControl.send_remote_input m) now later c =
    send_remote_input-IsConsistent s session m now c
dispatch-IsConsistent s session (ClientControl.ping m) now later c = c
dispatch-IsConsistent s session (ClientControl.time_sync m) now later c = c
dispatch-IsConsistent s session (ClientControl.authenticate m) now later c = c
dispatch-IsConsistent s session (ClientControl.list_participants m) now later c = c
dispatch-IsConsistent s session (ClientControl.list_streams m) now later c = c
dispatch-IsConsistent s session (ClientControl.poll_stream_config m) now later c = c
dispatch-IsConsistent s session (ClientControl.poll_stream_metrics m) now later c = c
dispatch-IsConsistent s session ClientControl.list_rooms now later c = c

-- A message keeps the rooms consistent, whatever the session is.
pub handle-IsConsistent :
    (s : ControlState) (session : Session) (envelope : ClientEnvelope) (now later : ℕ)
    → IsConsistent s
    → IsConsistent (handle_client_envelope s session envelope now later).0
handle-IsConsistent s session envelope now later c =
    let d = dispatch-IsConsistent s session envelope.message now later c in
    elim (Bool-cases (is_open_message envelope.message || is_authorized s session)) [
      | inl e ↦ rw (handle-guarded s session envelope now later, e) d
      | inr e ↦ rw (handle-guarded s session envelope now later, e) c
    ]

started-IsConsistent :
    (s : ControlState) → s.rooms ≡ [] → 1 ≤ s.limits.max_participants_per_room → IsConsistent s
unfolding BtreeMap.lookup
started-IsConsistent s e h = record {
  rooms_consistent = rw e (record {
    room_for_one = h;
    ordered = tt;
    room_limit = omega arith;
    open_rooms = λ q r z. ground (arith, z);
  });
}

-- In every state that the relay reaches from a start, by messages, disconnects and forwarded
-- packets, the rooms are consistent: their number, their participants and their streams are within
-- the limits; each room stands under its identifier and has a participant; streams are published,
-- and subscribed to, by participants of their room only; every subscription is to a stream that is
-- published; and every published stream has a target in range, with which its configuration agrees.
pub reachable-IsConsistent : (s : ControlState) → Reachable s → IsConsistent s
unfolding new_state with_access_token with_limits with_access_token_and_limits default_limits
    sanitized record_media_forward_summary
reachable-IsConsistent s started = started-IsConsistent new_state refl (omega arith)
reachable-IsConsistent s (started_with_token token) =
    started-IsConsistent (with_access_token token) refl (omega arith)
reachable-IsConsistent s (started_with_limits limits) =
    started-IsConsistent (with_limits limits) refl (omega arith)
reachable-IsConsistent s (started_with_both token limits) =
    started-IsConsistent (with_access_token_and_limits token limits) refl (omega arith)
reachable-IsConsistent s (handled {s = t} session envelope now later h) =
    handle-IsConsistent t session envelope now later (reachable-IsConsistent t h)
reachable-IsConsistent s (disconnected {s = t} user_id h) =
    disconnect_user-IsConsistent t user_id (reachable-IsConsistent t h)
reachable-IsConsistent s (forwarded {s = t} packet summary a b c h) = record {
  rooms_consistent = ground (arith, (reachable-IsConsistent t h).rooms_consistent);
}
