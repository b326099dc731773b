-- ===== src/Relay/Control/Handle.antt =====
-- crates/relay-server/src/control.rs: `handle_client_envelope`.
pub mod Access
use Prim.Native.Nat.{ℕ}
use teamview.Prelude.{
  ◌+◌, ◌%◌, ◌^◌, Bool, true, false, not, ◌&&◌, ◌||◌, Option, none, some, List, [], ◌∷◌, ◌++◌, ◌==◌,
  if◌then◌else◌,
}
use teamview.Prelude.BtreeMap
use teamview.Prelude.Text.{Text, text, decimal, eq_text}
use teamview.Protocol.Codec.{protocol_version}
use teamview.Protocol.Control.Names.{UserId}
use teamview.Protocol.Control.Rooms.{
  Hello, HelloAccepted, Ping, Pong, TimeSyncRequest, TimeSyncResponse, Authenticate, Authenticated,
  ControlError,
}
use teamview.Protocol.Control.Envelope.{
  ClientControl, ServerControl, ClientEnvelope, ServerEnvelope, new_envelope,
}
use teamview.Relay.Session.{Session, establish_identity, update_display_name, grant_access, is_some}
use teamview.Relay.Control.Names.{sanitize_display_name}
use teamview.Relay.Control.State.{
  ControlState, refusal, unauthenticated, requires_access_token, display_name_for_user,
}
use teamview.Relay.Control.Voice.{set_voice_state}
use teamview.Relay.Control.Membership.{create_room, join_room, handle_leave_room}
use teamview.Relay.Control.Streams.{
  publish_stream, unpublish_stream, subscribe_stream, unsubscribe_stream, request_keyframe,
  set_stream_config,
}
use teamview.Relay.Control.Input.{send_remote_input, poll_remote_input}
use teamview.Relay.Control.Feedback.{
  viewer_stats, poll_publisher_feedback, set_target_bitrate, set_target_framerate,
}
use teamview.Relay.Control.Queries.{
  poll_stream_config, list_rooms, list_streams, list_participants, poll_stream_metrics,
}

-- The state, the session and the reply after one message.
abbrev pub Outcome : Type 0
Outcome = ControlState × Session × ServerControl

unfoldable pub is_open_message : ClientControl → Bool
is_open_message (ClientControl.hello m) = true
is_open_message (ClientControl.ping m) = true
is_open_message (ClientControl.time_sync m) = true
is_open_message (ClientControl.authenticate m) = true
is_open_message _ = false

-- `authorization_error`: the error for a message that the session may not send.
unfoldable pub authorization_error : ControlState → Session → ClientControl → Option ServerControl
unfolding is_open_message is_some requires_access_token
authorization_error s session message =
    if is_open_message message
    then none
    else (if not (is_some session.user_id)
        then some unauthenticated
        else (if requires_access_token s && not session.access_granted
            then some (refusal "not_authenticated" "authenticate before using relay controls")
            else none))

-- The reply to `Hello` with another protocol version.
unfoldable pub version_error : Hello → ServerControl
version_error m = ServerControl.error (record {
  code = text "unsupported_version";
  message = text "unsupported client protocol version " ++ decimal m.protocol_version;
})

unfoldable pub hello_accepted : UserId → Text → ServerControl
hello_accepted user_id display_name = ServerControl.hello_accepted (record {
  protocol_version = protocol_version;
  server_name = text "teamview-relay";
  user_id = user_id;
  display_name = display_name;
})

-- `Hello` from a session that has an identity, and from one that gets the next.
unfoldable pub hello_again : ControlState → Session → Hello → UserId → Outcome
hello_again s session m user_id =
    let display_name = sanitize_display_name m.client_name user_id in
    (
      record s { display_names = BtreeMap.insert user_id display_name s.display_names },
      update_display_name session display_name,
      hello_accepted user_id display_name,
    )

unfoldable pub hello_first : ControlState → Session → Hello → Outcome
hello_first s session m =
    let user_id = s.next_user_id in
    let display_name = sanitize_display_name m.client_name user_id in
    (
      record s {
        next_user_id = (user_id + 1) % 2 ^ 64;
        display_names = BtreeMap.insert user_id display_name s.display_names;
      },
      establish_identity session user_id (not (requires_access_token s)) display_name,
      hello_accepted user_id display_name,
    )

unfoldable pub hello : ControlState → Session → Hello → Outcome
unfolding hello_again hello_first
hello s session m =
    if m.protocol_version == protocol_version
    then elim session.user_id [
      | some user_id ↦ hello_again s session m user_id
      | none ↦ hello_first s session m
    ]
    else (s, session, version_error m)

unfoldable pub ping : Session → Ping → ServerControl
unfolding is_some
ping session m =
    if is_some session.user_id
    then ServerControl.pong (record { nonce = m.nonce })
    else unauthenticated

-- `receive` and `send` are the two readings of the clock.
unfoldable pub time_sync : Session → TimeSyncRequest → ℕ → ℕ → ServerControl
unfolding is_some
time_sync session m receive send =
    if is_some session.user_id
    then ServerControl.time_sync (record {
      client_send_time_micros = m.client_send_time_micros;
      server_receive_time_micros = receive;
      server_send_time_micros = send;
    })
    else unauthenticated

-- No token is expected, or the right one is given.
unfoldable pub token_accepted : Option Text → Text → Bool
token_accepted none token = true
token_accepted (some expected_token) token = eq_text token expected_token

unfoldable pub authenticate : ControlState → Session → Authenticate → Session × ServerControl
unfolding token_accepted
authenticate s session m = elim session.user_id [
  | none ↦ (session, refusal "not_ready" "send Hello first")
  | some user_id ↦
      if token_accepted s.access_token m.token
      then (
        grant_access session,
        ServerControl.authenticated
            (record { user_id = user_id; display_name = display_name_for_user s user_id }),
      )
      else (session, refusal "invalid_token" "access token is invalid")
]

-- A handler that leaves the session alone.
abbrev pub same_session : Session → ControlState × ServerControl → Outcome
same_session session (s, m) = (s, session, m)

unfoldable pub dispatch : ControlState → Session → ClientControl → ℕ → ℕ → Outcome
dispatch s session (ClientControl.hello m) now later = hello s session m
dispatch s session (ClientControl.ping m) now later = (s, session, ping session m)
dispatch s session (ClientControl.time_sync m) now later =
    (s, session, time_sync session m now later)
dispatch s session (ClientControl.authenticate m) now later =
    let (session', r) = authenticate s session m in (s, session', r)
dispatch s session (ClientControl.create_room m) now later =
    same_session session (create_room s session m)
dispatch s session ClientControl.list_rooms now later =
    (s, session, ServerControl.room_list (list_rooms s))
dispatch s session (ClientControl.join_room m) now later =
    same_session session (join_room s session m)
dispatch s session (ClientControl.list_participants m) now later =
    (s, session, list_participants s session m.room_id)
dispatch s session (ClientControl.publish_stream m) now later =
    same_session session (publish_stream s session m)
dispatch s session (ClientControl.unpublish_stream m) now later =
    same_session session (unpublish_stream s session m)
dispatch s session (ClientControl.list_streams m) now later =
    (s, session, list_streams s session m.room_id)
dispatch s session (ClientControl.subscribe_stream m) now later =
    same_session session (subscribe_stream s session m)
dispatch s session (ClientControl.unsubscribe_stream m) now later =
    same_session session (unsubscribe_stream s session m)
dispatch s session (ClientControl.leave_room m) now later =
    same_session session (handle_leave_room s session m)
dispatch s session (ClientControl.set_voice_state m) now later =
    same_session session (set_voice_state s session m)
dispatch s session (ClientControl.set_stream_config m) now later =
    same_session session (set_stream_config s session m)
dispatch s session (ClientControl.poll_stream_config m) now later =
    (s, session, poll_stream_config s session m.room_id m.stream_id)
dispatch s session (ClientControl.poll_stream_metrics m) now later =
    (s, session, poll_stream_metrics s session m.room_id m.stream_id)
dispatch s session (ClientControl.request_keyframe m) now later =
    same_session session (request_keyframe s session m)
dispatch s session (ClientControl.send_remote_input m) now later =
    same_session session (send_remote_input s session m now)
dispatch s session (ClientControl.poll_remote_input m) now later =
    same_session session (poll_remote_input s session m)
dispatch s session (ClientControl.viewer_stats m) now later =
    same_session session (viewer_stats s session m)
dispatch s session (ClientControl.poll_publisher_feedback m) now later =
    same_session session (poll_publisher_feedback s session m)
dispatch s session (ClientControl.set_target_bitrate m) now later =
    same_session session (set_target_bitrate s session m)
dispatch s session (ClientControl.set_target_framerate m) now later =
    same_session session (set_target_framerate s session m)

-- One message: `now` and `later` are what the clock shows when a handler reads it.
unfoldable pub handle_client_envelope :
    ControlState → Session → ClientEnvelope → ℕ → ℕ → ControlState × Session × ServerEnvelope
handle_client_envelope s session envelope now later =
    elim (authorization_error s session envelope.message) [
      | some e ↦ (s, session, new_envelope envelope.request_id e)
      | none ↦
          let (s', session', m) = dispatch s session envelope.message now later in
          (s', session', new_envelope envelope.request_id m)
    ]
