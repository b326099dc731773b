-- ===== src/Relay/ControlStream/Lifecycle.antt =====
-- The runtime of crates/relay-server/src/control_stream.rs over any history: its connections, control
-- streams, datagrams and send tasks, interleaved where the code lets go of its locks.
use teamview.Prelude.{
  ℕ, ◌≤◌, ◌≡◌, refl, inl, inr, Option, some, List, [], ◌∷◌, length, Option-cases, Bool-cases, arith,
}
use teamview.Prelude.BtreeMap
use teamview.Prelude.Result.{Result, ok, err, panic}
use teamview.Protocol.Wire.{Wire}
use teamview.Protocol.Packet.{MediaPacket}
use teamview.Protocol.Control.Names.{UserId}
use teamview.Protocol.Control.Envelope.{
  ClientControl, ServerControl, ServerEnvelope, ClientEnvelope, ControlEnvelope,
}
use teamview.Protocol.Control.Json.{Json, ControlCodecError, decode_client_envelope}
use teamview.Relay.Config.{ServerConfig}
use teamview.Relay.Room.{PublishedStream}
use teamview.Relay.Session.{Session}
use teamview.Relay.Control.State.{ControlState, subscribers_for_stream}
use teamview.Relay.Control.Membership.{disconnect_user}
use teamview.Relay.Control.Feedback.{MediaForwardSummary}
use teamview.Relay.Control.Rooms.{IsConsistent}
use teamview.Relay.Control.Rooms.History
use teamview.Relay.Control.Rooms.History.{reachable-IsConsistent}
use teamview.Relay.Control.Handle.{handle_client_envelope}
use teamview.Relay.Media.{EgressDatagram, accepted_stream, datagram_of}
use teamview.Relay.Metrics.{micros_delta_to_millis}
use teamview.Relay.Media.Channel.{Mpsc}
use teamview.Relay.Media.Egress.{
  MediaRelay, ViewerEgress, new_relay, with_egress_limits, with_viewer_queue_budget_ms, register,
  unregister, send_next, forward_media_packet, forward_to, forward_to_all,
}
use teamview.Relay.ControlStream.{
  ControlRuntime, new_runtime, from_config, accept_connection, close_connection,
  handle_control_bytes, handle_control_stream, register_greeted, handle_media_datagram,
  checked_datagram, route_packet, is_hello_accepted,
}

module _ {Chan : Type 0} (mpsc : Mpsc Chan EgressDatagram) (w : Wire)
    (client_json : Json (ControlEnvelope ClientControl)) where
  -- A step is what happens under one lock: a control stream is `requested`, then `greeted`; the end of
  -- a connection is `unregistered`, then `disconnected`; `drained` is a round of a viewer's send task.
  pub data Reachable : ControlRuntime Chan → Type 0 where
    started : Reachable (new_runtime mpsc)
    configured : (config : ServerConfig) → Reachable (from_config mpsc config)
    connected : {r : ControlRuntime Chan} → Reachable r → Reachable (accept_connection mpsc r).0
    requested :
        {r : ControlRuntime Chan} (session : Session) (bytes : List ℕ) (now later : ℕ)
        → Reachable r
        → Reachable (handle_control_bytes mpsc client_json r session bytes now later).0
    greeted :
        {r : ControlRuntime Chan} (session : Session) (message : ServerControl)
        → Reachable r
        → Reachable (register_greeted mpsc r session message)
    received :
        {r : ControlRuntime Chan} (session : Session) (bytes : List ℕ) (received_at now : ℕ)
        → Reachable r
        → Reachable (handle_media_datagram mpsc w r session bytes received_at now)
    drained :
        {r : ControlRuntime Chan} (user_id : UserId) (egress egress' : ViewerEgress Chan)
        (written : Option (List ℕ)) (now : ℕ)
        → BtreeMap.lookup user_id r.media.egress ≡ some egress
        → send_next mpsc w egress now ≡ some (egress', written)
        → Reachable r
        → Reachable (record r {
          media = record r.media { egress = BtreeMap.insert user_id egress' r.media.egress };
        })
    unregistered :
        {r : ControlRuntime Chan} (user_id : UserId)
        → Reachable r
        → Reachable (record r { media = unregister mpsc r.media user_id })
    disconnected :
        {r : ControlRuntime Chan} (user_id : UserId)
        → Reachable r
        → Reachable (record r { state = disconnect_user r.state user_id })

  -- A whole control stream is steps.
  pub handle_control_stream-Reachable :
      (server_json : Json ServerEnvelope) (r : ControlRuntime Chan) (session : Session)
      (bytes : List ℕ) (now later : ℕ)
      → Reachable r
      → Reachable (handle_control_stream mpsc client_json server_json r session bytes now later).0
  unfolding handle_control_stream
  handle_control_stream-Reachable server_json r session bytes now later h =
      let asked = requested session bytes now later h in
      elim (Option-cases (handle_control_bytes mpsc client_json r session bytes now later).2) [
        | inl e ↦ rw (handle_control_stream, e) asked
        | inr (response, e) ↦
            rw (handle_control_stream, e)
              (greeted (handle_control_bytes mpsc client_json r session bytes now later).1
                response.message asked)
      ]

  -- So is the end of a connection.
  pub close_connection-Reachable :
      (r : ControlRuntime Chan) (session : Session)
      → Reachable r
      → Reachable (close_connection mpsc r session)
  unfolding close_connection
  close_connection-Reachable r session h = elim (Option-cases session.user_id) [
    | inl e ↦ rw (close_connection, e) h
    | inr (user_id, e) ↦ rw (close_connection, e) (disconnected user_id (unregistered user_id h))
  ]

  -- A request leaves the runtime alone or runs a message on its state.
  requested_either :
      (P : ControlRuntime Chan → Type 0) (r : ControlRuntime Chan) (session : Session)
      (bytes : List ℕ) (now later : ℕ) (d : Result ControlCodecError ClientEnvelope)
      → decode_client_envelope client_json bytes ≡ d
      → P r
      → ((envelope : ClientEnvelope)
          → P (record r { state = (handle_client_envelope r.state session envelope now later).0 }))
      → P (handle_control_bytes mpsc client_json r session bytes now later).0
  unfolding handle_control_bytes
  requested_either P r session bytes now later (ok envelope) e kept run =
      rw (handle_control_bytes, e) (run envelope)
  requested_either P r session bytes now later (err x) e kept run =
      rw (handle_control_bytes, e) kept
  requested_either P r session bytes now later panic e kept run = rw (handle_control_bytes, e) kept

  -- The sizes of the relay's queues.
  pub record IsSized (relay : MediaRelay Chan) : Type 0 where
    pub capacity : 1 ≤ relay.egress_queue_capacity
    pub budget : 1 ≤ relay.viewer_queue_budget_ms

  forward_to-IsSized :
      (state : ControlState) (published : PublishedStream) (publisher_id : UserId)
      (datagram : EgressDatagram) (relay : MediaRelay Chan) (summary : MediaForwardSummary)
      (user_id : UserId)
      → IsSized relay
      → IsSized (forward_to mpsc state published publisher_id datagram relay summary user_id).0
  unfolding forward_to
  forward_to-IsSized state published publisher_id datagram relay summary user_id h = record {
    capacity = ground (arith, h.capacity);
    budget = ground (arith, h.budget);
  }

  forward_to_all-IsSized :
      (state : ControlState) (published : PublishedStream) (publisher_id : UserId)
      (datagram : EgressDatagram) (relay : MediaRelay Chan) (summary : MediaForwardSummary)
      (user_ids : List UserId)
      → IsSized relay
      → IsSized (forward_to_all mpsc state published publisher_id datagram relay summary user_ids).0
  unfolding forward_to_all
  forward_to_all-IsSized state published publisher_id datagram relay summary [] h = h
  forward_to_all-IsSized state published publisher_id datagram relay summary (u ∷ us) h =
      let r = forward_to mpsc state published publisher_id datagram relay summary u in
      forward_to_all-IsSized state published publisher_id datagram r.0 r.1 us
        (forward_to-IsSized state published publisher_id datagram relay summary u h)

  forward_media_packet-IsSized :
      (relay : MediaRelay Chan) (state : ControlState) (publisher_id : UserId)
      (packet : MediaPacket) (received_at : ℕ)
      → IsSized relay
      → IsSized (forward_media_packet mpsc w relay state publisher_id packet received_at).0
  unfolding forward_media_packet
  forward_media_packet-IsSized relay state publisher_id packet received_at h =
      elim (Option-cases (accepted_stream w state publisher_id packet)) [
        | inl e ↦ rw (forward_media_packet, e) h
        | inr (published, e) ↦
            rw (forward_media_packet, e)
              (forward_to_all-IsSized state published publisher_id
                (datagram_of packet published relay.viewer_queue_budget_ms received_at) relay
                (record { stream_id = packet.header.room_stream_id; queued = 0; dropped = 0 })
                (subscribers_for_stream state packet.header.room_stream_id) h)
      ]

  -- What a runtime keeps to.
  pub record IsSound (r : ControlRuntime Chan) : Type 0 where
    pub history : History.Reachable r.state
    pub consistent : IsConsistent r.state
    pub sized : IsSized r.media
    pub payload : 1 ≤ r.max_datagram_payload

  started-IsSound : IsSound (new_runtime mpsc)
  unfolding new_runtime new_relay with_egress_limits
  started-IsSound = record {
    history = History.started;
    consistent = reachable-IsConsistent _ History.started;
    sized = record { capacity = omega arith; budget = omega arith };
    payload = omega arith;
  }

  configured-history : (config : ServerConfig) → History.Reachable (from_config mpsc config).state
  unfolding from_config
  configured-history config = elim (Option-cases config.access_token) [
    | inl e ↦ rw (from_config, e) (History.started_with_limits config.control_limits)
    | inr (token, e) ↦ rw (from_config, e) (History.started_with_both token config.control_limits)
  ]

  received-IsSound :
      (r : ControlRuntime Chan) (session : Session) (bytes : List ℕ) (received_at now : ℕ)
      → IsSound r
      → IsSound (handle_media_datagram mpsc w r session bytes received_at now)
  unfolding handle_media_datagram route_packet
  received-IsSound r session bytes received_at now h =
      elim (Option-cases (checked_datagram w r.max_datagram_payload session bytes)) [
        | inl e ↦ rw (handle_media_datagram, e) h
        | inr ((user_id, packet), e) ↦
            let counted =
              History.forwarded packet
                (forward_media_packet mpsc w r.media r.state user_id packet received_at).1
                (length bytes) received_at (micros_delta_to_millis received_at now) h.history in
            rw (handle_media_datagram, e)
              (record {
                history = counted;
                consistent = reachable-IsConsistent _ counted;
                sized =
                    forward_media_packet-IsSized r.media r.state user_id packet received_at h.sized;
                payload = h.payload;
              })
      ]

  -- A change of the state that a relay's history allows.
  with_state-IsSound :
      (r : ControlRuntime Chan) (s : ControlState)
      → History.Reachable s
      → IsSound r
      → IsSound (record r { state = s })
  with_state-IsSound r s reached h = record {
    history = reached;
    consistent = reachable-IsConsistent s reached;
    sized = h.sized;
    payload = h.payload;
  }

  register_greeted-IsSound :
      (r : ControlRuntime Chan) (session : Session) (message : ServerControl)
      → IsSound r
      → IsSound (register_greeted mpsc r session message)
  unfolding register_greeted register
  register_greeted-IsSound r session message h = elim (Bool-cases (is_hello_accepted message)) [
    | inr e ↦ rw (register_greeted, e) h
    | inl e ↦ elim (Option-cases session.user_id) [
      | inl anonymous ↦ rw (register_greeted, e, anonymous) h
      | inr (user_id, known) ↦
          rw (register_greeted, e, known)
            (record {
              history = h.history;
              consistent = h.consistent;
              sized = record { capacity = h.sized.capacity; budget = h.sized.budget };
              payload = h.payload;
            })
    ]
  ]

  -- In every state that the relay's runtime reaches from a start, by connections, control streams,
  -- datagrams and send tasks in any interleaving of their steps, the control state is one that
  -- messages, disconnects and forwarded packets alone can reach; its rooms are consistent; and the
  -- capacity and the budget of the egress queues and the largest datagram are at least 1.
  pub reachable-IsSound : (r : ControlRuntime Chan) → Reachable r → IsSound r
  unfolding from_config with_viewer_queue_budget_ms with_egress_limits accept_connection unregister
  reachable-IsSound r started = started-IsSound
  reachable-IsSound r (configured config) = record {
    history = configured-history config;
    consistent = reachable-IsConsistent _ (configured-history config);
    sized = record { capacity = omega arith; budget = omega arith };
    payload = omega arith;
  }
  reachable-IsSound r (connected {r = q} h) =
      let sound = reachable-IsSound q h in
      record {
        history = sound.history;
        consistent = sound.consistent;
        sized = sound.sized;
        payload = sound.payload;
      }
  reachable-IsSound r (requested {r = q} session bytes now later h) =
      let sound = reachable-IsSound q h in
      requested_either IsSound q session bytes now later _ refl sound λ envelope.
        with_state-IsSound q _ (History.handled session envelope now later sound.history) sound
  reachable-IsSound r (greeted {r = q} session message h) =
      register_greeted-IsSound q session message (reachable-IsSound q h)
  reachable-IsSound r (received {r = q} session bytes received_at now h) =
      received-IsSound q session bytes received_at now (reachable-IsSound q h)
  reachable-IsSound r (drained {r = q} user_id egress egress' written now found next h) =
      let sound = reachable-IsSound q h in
      record {
        history = sound.history;
        consistent = sound.consistent;
        sized = record { capacity = sound.sized.capacity; budget = sound.sized.budget };
        payload = sound.payload;
      }
  reachable-IsSound r (unregistered {r = q} user_id h) =
      let sound = reachable-IsSound q h in
      record {
        history = sound.history;
        consistent = sound.consistent;
        sized = record { capacity = sound.sized.capacity; budget = sound.sized.budget };
        payload = sound.payload;
      }
  reachable-IsSound r (disconnected {r = q} user_id h) =
      let sound = reachable-IsSound q h in
      with_state-IsSound q _ (History.disconnected user_id sound.history) sound
