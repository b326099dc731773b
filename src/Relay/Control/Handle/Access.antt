-- ===== src/Relay/Control/Handle/Access.antt =====
-- Who may use the control plane: the guard of `handle_client_envelope` in
-- crates/relay-server/src/control.rs, and the ways to get past it.
use Prim.Native.Nat.{ℕ}
use teamview.Prelude.{
  ◌≡◌, refl, sym, ap, Bool, true, false, not, ◌&&◌, ◌||◌, Option, none, some, if◌then◌else◌, arith,
}
use teamview.Prelude.Text.{Text, eq_text_sound}
use teamview.Protocol.Control.Rooms.{Authenticate, Hello}
use teamview.Protocol.Control.Envelope.{ClientControl, ServerControl, ClientEnvelope, new_envelope}
use teamview.Relay.Session.{Session, is_some, establish_identity, grant_access, update_display_name}
use teamview.Relay.Control.State.{ControlState, refusal, unauthenticated, requires_access_token}
use teamview.Relay.Control.Handle.{
  is_open_message, authorization_error, hello, hello_again, hello_first, authenticate, dispatch,
  handle_client_envelope, token_accepted,
}

-- The session may send every message: it has an identity, and access where a token is required.
abbrev pub is_authorized : ControlState → Session → Bool
is_authorized s session =
    is_some session.user_id && (not (requires_access_token s) || session.access_granted)

-- The error of a message that is not open.
abbrev pub denial : Session → ServerControl
denial session =
    if is_some session.user_id
    then refusal "not_authenticated" "authenticate before using relay controls"
    else unauthenticated

authorization_error-cases :
    (s : ControlState) (session : Session) (message : ClientControl)
    → authorization_error s session message
      ≡ (if is_open_message message || is_authorized s session then none else some (denial session))
unfolding authorization_error
authorization_error-cases s session message = ground arith

-- A message that is not `Hello`, `Ping`, `TimeSync` or `Authenticate` leaves the state and the
-- session as they were, and is answered with an error, if the session has no identity, or has no
-- access where a token is required. Every other message is handed to its handler. The reply carries
-- the identifier of the request.
pub handle-guarded :
    (s : ControlState) (session : Session) (envelope : ClientEnvelope) (now later : ℕ)
    → handle_client_envelope s session envelope now later ≡ (
        let r = dispatch s session envelope.message now later in
        if is_open_message envelope.message || is_authorized s session
        then (r.0, r.1, new_envelope envelope.request_id r.2)
        else (s, session, new_envelope envelope.request_id (denial session)))
unfolding handle_client_envelope
handle-guarded s session envelope now later =
    ground (arith, authorization_error-cases s session envelope.message)

-- A session that has access after `Authenticate`, and had none before, has sent an accepted token.
authenticate-access :
    (s : ControlState) (session : Session) (m : Authenticate)
    → session.access_granted ≡ false
    → (authenticate s session m).0.access_granted ≡ true
    → token_accepted s.access_token m.token ≡ true
unfolding authenticate grant_access
authenticate-access s session m denied h = ground arith

hello-access :
    (s : ControlState) (session : Session) (m : Hello)
    → requires_access_token s ≡ true
    → session.access_granted ≡ false
    → (hello s session m).1.access_granted ≡ false
unfolding hello hello_again hello_first establish_identity update_display_name
hello-access s session m required denied = ground (arith, required, denied)

token_accepted-required :
    (expected : Option Text) (token : Text)
    → is_some expected ≡ true
    → token_accepted expected token ≡ true
    → expected ≡ some token
unfolding token_accepted is_some
token_accepted-required none token required h = ground arith
token_accepted-required (some t) token required h = ap some (sym (eq_text_sound token t h))

-- The message hands over the token.
abbrev pub HandsOver : Text → ClientControl → Type 0
HandsOver token message = message ≡ ClientControl.authenticate (record { token = token })

abbrev pub IsTokenHeld : ControlState → ClientControl → Type 0
IsTokenHeld s message = (token : Text) × (s.access_token ≡ some token) × HandsOver token message

dispatch-access :
    (s : ControlState) (session : Session) (message : ClientControl) (now later : ℕ)
    → requires_access_token s ≡ true
    → session.access_granted ≡ false
    → (dispatch s session message now later).1.access_granted ≡ true
    → IsTokenHeld s message
unfolding dispatch requires_access_token
dispatch-access s session (ClientControl.hello m) now later required denied h =
    ground (arith, hello-access s session m required denied)
dispatch-access s session (ClientControl.authenticate m) now later required denied h = (
  m.token,
  token_accepted-required s.access_token m.token required
      (authenticate-access s session m denied h),
  refl,
)
dispatch-access s session (ClientControl.ping m) now later required denied h = ground arith
dispatch-access s session (ClientControl.create_room m) now later required denied h = ground arith
dispatch-access s session (ClientControl.join_room m) now later required denied h = ground arith
dispatch-access s session (ClientControl.publish_stream m) now later required denied h =
    ground arith
dispatch-access s session (ClientControl.unpublish_stream m) now later required denied h =
    ground arith
dispatch-access s session (ClientControl.subscribe_stream m) now later required denied h =
    ground arith
dispatch-access s session (ClientControl.unsubscribe_stream m) now later required denied h =
    ground arith
dispatch-access s session (ClientControl.leave_room m) now later required denied h = ground arith
dispatch-access s session (ClientControl.set_voice_state m) now later required denied h =
    ground arith
dispatch-access s session (ClientControl.set_stream_config m) now later required denied h =
    ground arith
dispatch-access s session (ClientControl.request_keyframe m) now later required denied h =
    ground arith
dispatch-access s session (ClientControl.send_remote_input m) now later required denied h =
    ground arith
dispatch-access s session (ClientControl.poll_remote_input m) now later required denied h =
    ground arith
dispatch-access s session (ClientControl.viewer_stats m) now later required denied h = ground arith
dispatch-access s session (ClientControl.poll_publisher_feedback m) now later required denied h =
    ground arith
dispatch-access s session (ClientControl.set_target_bitrate m) now later required denied h =
    ground arith
dispatch-access s session (ClientControl.set_target_framerate m) now later required denied h =
    ground arith
dispatch-access s session (ClientControl.time_sync m) now later required denied h = ground arith
dispatch-access s session (ClientControl.list_participants m) now later required denied h =
    ground arith
dispatch-access s session (ClientControl.list_streams m) now later required denied h = ground arith
dispatch-access s session (ClientControl.poll_stream_config m) now later required denied h =
    ground arith
dispatch-access s session (ClientControl.poll_stream_metrics m) now later required denied h =
    ground arith
dispatch-access s session ClientControl.list_rooms now later required denied h = ground arith

-- Where a token is required, a session without access that has access after a message has sent
-- `Authenticate` with that token.
pub handle-access :
    (s : ControlState) (session : Session) (envelope : ClientEnvelope) (now later : ℕ)
    → requires_access_token s ≡ true
    → session.access_granted ≡ false
    → (handle_client_envelope s session envelope now later).1.access_granted ≡ true
    → IsTokenHeld s envelope.message
handle-access s session envelope now later required denied h = ground (
  arith,
  handle-guarded s session envelope now later,
  dispatch-access s session envelope.message now later required denied,
)
