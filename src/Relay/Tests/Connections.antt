-- ===== src/Relay/Tests/Connections.antt =====
-- Instances of the theorems about crates/relay-server/src/control_stream.rs.
use teamview.Prelude.{ℕ, ◌≡◌, ◌⊎◌, true, List, [], ◌∷◌, ◌++◌}
use teamview.Prelude.Result.{ok, err}
use teamview.Protocol.Packet.{encode_header}
use teamview.Protocol.Control.Envelope.{ControlEnvelope, ClientControl}
use teamview.Protocol.Control.Json.{Json}
use teamview.Protocol.Tests.BigEndian.{big_endian}
use teamview.Relay.Session.{anonymous}
use teamview.Relay.ControlStream.{
  ControlRuntime, new_runtime, accept_connection, handle_control_bytes, handle_media_datagram,
}
use teamview.Relay.ControlStream.Guards.{IsAdmitted, handle_media_datagram-IsAdmitted}
use teamview.Relay.ControlStream.Lifecycle.{
  IsSound, Reachable, started, connected, requested, reachable-IsSound,
}
use teamview.Relay.Tests.Sample.{state, packet, session_of, envelope_of}
use teamview.Relay.Tests.Media.{ListChannel, channel, relay}

-- Each line is a hello of a client with that name.
abbrev hello_lines : Json (ControlEnvelope ClientControl)
hello_lines = record {
  to_vec = λ envelope. err [];
  from_slice = λ bytes.
      ok (envelope_of (ClientControl.hello (record { protocol_version = 1; client_name = bytes })));
}

abbrev accepting : ControlRuntime ListChannel
accepting = (accept_connection channel (new_runtime channel)).0

abbrev greeting : ControlRuntime ListChannel
greeting = (handle_control_bytes channel hello_lines accepting (anonymous 1) (97 ∷ 98 ∷ []) 10 20).0

greeting-Reachable : Reachable channel big_endian hello_lines greeting
greeting-Reachable = requested (anonymous 1) (97 ∷ 98 ∷ []) 10 20 (connected started)

reachable-IsSound_example : IsSound channel big_endian hello_lines greeting
reachable-IsSound_example =
    reachable-IsSound channel big_endian hello_lines greeting greeting-Reachable

abbrev runtime : ControlRuntime ListChannel
runtime = record { state = state; media = relay; next_session_id = 3; max_datagram_payload = 1200 }

abbrev datagram : List ℕ
datagram = encode_header big_endian packet.header ++ packet.payload

handle_media_datagram-IsAdmitted_example :
    IsAdmitted big_endian runtime (session_of 1 true) datagram
    ⊎ ((handle_media_datagram channel big_endian runtime
          (session_of 1 true)
          datagram
          5000
          6000).media
        ≡ runtime.media)
handle_media_datagram-IsAdmitted_example =
    handle_media_datagram-IsAdmitted channel big_endian runtime (session_of 1 true) datagram 5000
      6000
