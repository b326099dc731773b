-- ===== src/Relay/ControlStream.antt =====
-- crates/relay-server/src/control_stream.rs: what the relay does with a connection, its control
-- streams and its datagrams. The QUIC connection, the timeouts and the tasks belong to quinn and
-- tokio: each definition is what happens between two waits.
pub mod Guards
pub mod Lifecycle
use teamview.Prelude.{
  ℕ, ◌+◌, ◌%◌, ◌^◌, max, Bool, true, false, not, Option, none, some, List, length, ltb,
  if◌then◌else◌,
}
use teamview.Prelude.Text.{text}
use teamview.Prelude.Words.{cast}
use teamview.Prelude.Result.{Result, ok, err, panic}
use teamview.Protocol.Wire.{Wire}
use teamview.Protocol.Packet.{MediaPacket, decode, default_datagram_payload_target}
use teamview.Protocol.Control.Names.{UserId}
use teamview.Protocol.Control.Envelope.{ClientControl, ServerControl, ServerEnvelope, new_envelope}
use teamview.Protocol.Control.Media.{StreamMetricsSnapshot}
use teamview.Protocol.Control.Json.{
  Json, ControlCodecError, codec_error_text, decode_client_envelope, encode_server_envelope,
}
use teamview.Protocol.Control.Envelope.{ControlEnvelope}
use teamview.Relay.Config.{ServerConfig}
use teamview.Relay.Session.{Session, anonymous}
use teamview.Relay.Metrics.{micros_delta_to_millis}
use teamview.Relay.Control.State.{
  ControlState, new_state, with_limits, with_access_token_and_limits,
}
use teamview.Relay.Control.Membership.{disconnect_user}
use teamview.Relay.Control.Feedback.{record_media_forward_summary}
use teamview.Relay.Control.Handle.{handle_client_envelope}
use teamview.Relay.Media.{EgressDatagram}
use teamview.Relay.Media.Channel.{Mpsc}
use teamview.Relay.Media.Egress.{
  MediaRelay, new_relay, with_viewer_queue_budget_ms, register, unregister, forward_media_packet,
  stream_egress_depth,
}

pub record ControlRuntime (Chan : Type 0) : Type 0 where
  pub state : ControlState
  pub media : MediaRelay Chan
  pub next_session_id : ℕ
  pub max_datagram_payload : ℕ

-- `matches!(response.message, ServerControl::HelloAccepted(_))`
unfoldable pub is_hello_accepted : ServerControl → Bool
is_hello_accepted (ServerControl.hello_accepted m) = true
is_hello_accepted message = false

-- The checks on a datagram, in the code's order: the user and the packet if it goes on.
unfoldable pub checked_datagram : Wire → ℕ → Session → List ℕ → Option (UserId × MediaPacket)
checked_datagram w max_datagram_payload session bytes =
    if ltb max_datagram_payload (length bytes) then none else elim session.user_id [
      | none ↦ none
      | some user_id ↦ if not session.access_granted then none else elim (decode w bytes) [
        | ok packet ↦ some (user_id, packet)
        | err e ↦ none
        | panic ↦ none
      ]
    ]

module _ {Chan : Type 0} (mpsc : Mpsc Chan EgressDatagram) where
  unfoldable pub new_runtime : ControlRuntime Chan
  new_runtime = record {
    state = new_state;
    media = new_relay mpsc;
    next_session_id = 1;
    max_datagram_payload = default_datagram_payload_target;
  }

  unfoldable pub from_config : ServerConfig → ControlRuntime Chan
  from_config config = record {
    state = elim config.access_token [
      | some access_token ↦ with_access_token_and_limits access_token config.control_limits
      | none ↦ with_limits config.control_limits
    ];
    media = with_viewer_queue_budget_ms mpsc config.viewer_queue_budget_ms;
    next_session_id = 1;
    max_datagram_payload = max config.max_datagram_payload 1;
  }

  -- The first lines of `serve_connection`: the session of a new connection.
  unfoldable pub accept_connection : ControlRuntime Chan → ControlRuntime Chan × Session
  accept_connection r =
      (record r { next_session_id = (r.next_session_id + 1) % 2 ^ 64 }, anonymous r.next_session_id)

  -- The last lines of `serve_connection`: what a connection that ends leaves behind.
  unfoldable pub close_connection : ControlRuntime Chan → Session → ControlRuntime Chan
  close_connection r session = elim session.user_id [
    | none ↦ r
    | some user_id ↦ record r {
      media = unregister mpsc r.media user_id;
      state = disconnect_user r.state user_id;
    }
  ]

  -- The depths of the stream's egress queues, in an answer that has room for them.
  unfoldable pub with_egress_depth : ControlRuntime Chan → ServerControl → ServerControl
  with_egress_depth r (ServerControl.stream_metrics metrics) =
      let depth = stream_egress_depth mpsc r.media r.state metrics.stream_id in
      ServerControl.stream_metrics (record metrics {
        egress_queue_packets = depth.queued_packets;
        egress_queue_media_ms = depth.queued_media_ms;
      })
  with_egress_depth r message = message

  -- What follows the guards of `handle_media_datagram`.
  unfoldable pub route_packet :
      Wire → ControlRuntime Chan → UserId → MediaPacket → ℕ → ℕ → ℕ → ControlRuntime Chan
  route_packet w r user_id packet datagram_bytes received_at_micros now =
      let (media, summary) =
        forward_media_packet mpsc w r.media r.state user_id packet received_at_micros in
      record r {
        media = media;
        state =
            record_media_forward_summary r.state packet summary datagram_bytes received_at_micros
              (micros_delta_to_millis received_at_micros now);
      }

  unfoldable pub handle_media_datagram :
      Wire → ControlRuntime Chan → Session → List ℕ → ℕ → ℕ → ControlRuntime Chan
  handle_media_datagram w r session bytes received_at_micros now =
      elim (checked_datagram w r.max_datagram_payload session bytes) [
        | none ↦ r
        | some checked ↦
            let (user_id, packet) = checked in
            route_packet w r user_id packet (length bytes) received_at_micros now
      ]

  -- `self.media.lock().await.register(user_id, connection.clone())` after a hello.
  unfoldable pub register_greeted :
      ControlRuntime Chan → Session → ServerControl → ControlRuntime Chan
  register_greeted r session message =
      if is_hello_accepted message
      then elim session.user_id [
        | none ↦ r
        | some user_id ↦ record r { media = register mpsc r.media user_id }
      ]
      else r

  module _ (client_json : Json (ControlEnvelope ClientControl)) where
    -- No answer where the JSON parser panics.
    unfoldable pub handle_control_bytes :
        ControlRuntime Chan
        → Session
        → List ℕ
        → ℕ
        → ℕ
        → ControlRuntime Chan × Session × Option ServerEnvelope
    handle_control_bytes r session bytes now later =
        elim (decode_client_envelope client_json bytes) [
          | ok envelope ↦
              let (s', session', response) =
                handle_client_envelope r.state session envelope now later in
              let r' : ControlRuntime Chan = record r { state = s' } in
              (
                r',
                session',
                some (record response { message = with_egress_depth r' response.message }),
              )
          | err e ↦
              let refusal =
                ServerControl.error
                  (record { code = text "bad_control_message"; message = codec_error_text e }) in
              (r, session, some (new_envelope 0 refusal))
          | panic ↦ (r, session, none)
        ]

    -- One control stream whose request is read: the bytes to be written back.
    unfoldable pub handle_control_stream :
        Json ServerEnvelope
        → ControlRuntime Chan
        → Session
        → List ℕ
        → ℕ
        → ℕ
        → ControlRuntime Chan × Session × Result ControlCodecError (List ℕ)
    handle_control_stream server_json r session bytes now later =
        let (r', session', answer) = handle_control_bytes r session bytes now later in
        elim answer [
          | none ↦ (r', session', panic)
          | some response ↦ (
            register_greeted r' session' response.message,
            session',
            encode_server_envelope server_json response,
          )
        ]
