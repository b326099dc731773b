-- ===== src/Relay/ControlStream/Guards.antt =====
-- Which datagrams of crates/relay-server/src/control_stream.rs reach a viewer's queue.
use teamview.Prelude.{ℕ, ◌≤◌, ◌≡◌, ◌⊎◌, inl, inr, true, some, List, length, Option-cases, arith}
use teamview.Prelude.Result.{ok}
use teamview.Protocol.Wire.{Wire}
use teamview.Protocol.Packet.{MediaPacket, decode}
use teamview.Protocol.Control.Names.{UserId}
use teamview.Relay.Session.{Session}
use teamview.Relay.Media.{EgressDatagram}
use teamview.Relay.Media.Channel.{Mpsc}
use teamview.Relay.Media.Forwarding.{IsAccepted, forward_media_packet-IsAccepted}
use teamview.Relay.ControlStream.{
  ControlRuntime, checked_datagram, route_packet, handle_media_datagram,
}

-- What holds of a datagram that reaches the viewers.
pub record IsAdmitted {Chan : Type 0} (w : Wire) (r : ControlRuntime Chan) (session : Session)
    (bytes : List ℕ) : Type 0 where
  pub user_id : UserId
  pub packet : MediaPacket
  pub identified : session.user_id ≡ some user_id
  pub granted : session.access_granted ≡ true
  pub small : length bytes ≤ r.max_datagram_payload
  pub decoded : decode w bytes ≡ ok packet
  pub accepted : IsAccepted w r.state user_id packet

checked_datagram-some :
    (w : Wire) (limit : ℕ) (session : Session) (bytes : List ℕ) (user_id : UserId)
    (packet : MediaPacket)
    → checked_datagram w limit session bytes ≡ some (user_id, packet)
    → (session.user_id ≡ some user_id)
      × (session.access_granted ≡ true)
      × (length bytes ≤ limit)
      × (decode w bytes ≡ ok packet)
unfolding checked_datagram
checked_datagram-some w limit session bytes user_id packet e = ground (arith, e)

module _ {Chan : Type 0} (mpsc : Mpsc Chan EgressDatagram) (w : Wire) where
  -- A datagram changes no viewer's egress queue, unless it is within the size limit, comes from a
  -- session with an identity and with access, decodes to a packet, and the relay accepts that
  -- packet from that user.
  pub handle_media_datagram-IsAdmitted :
      (r : ControlRuntime Chan) (session : Session) (bytes : List ℕ) (received_at now : ℕ)
      → (IsAdmitted w r session bytes)
        ⊎ ((handle_media_datagram mpsc w r session bytes received_at now).media ≡ r.media)
  unfolding handle_media_datagram route_packet
  handle_media_datagram-IsAdmitted r session bytes received_at now =
      elim (Option-cases (checked_datagram w r.max_datagram_payload session bytes)) [
        | inl dropped ↦ inr (rw (handle_media_datagram, dropped))
        | inr ((user_id, packet), checked) ↦
            let (identified, granted, small, decoded) =
              checked_datagram-some w r.max_datagram_payload session bytes user_id packet checked in
            elim (forward_media_packet-IsAccepted mpsc w r.media r.state user_id packet
              received_at) [
                | inl accepted ↦ inl (record {
                  user_id = user_id;
                  packet = packet;
                  identified = identified;
                  granted = granted;
                  small = small;
                  decoded = decoded;
                  accepted = accepted;
                })
                | inr refused ↦ inr (rw (handle_media_datagram, checked, refused))
              ]
      ]
