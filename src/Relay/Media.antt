-- ===== src/Relay/Media.antt =====
-- crates/relay-server/src/media.rs: the media relay, which hands a publisher's packets to the egress
-- queues of the stream's viewers.
pub mod Channel
pub mod Egress
pub mod Depths
pub mod Interleaving
pub mod Forwarding
pub mod Delivery
use teamview.Prelude.{
  ℕ, ◌+◌, ◌/◌, min, max, Bool, true, false, not, ◌&&◌, ◌||◌, Option, none, some, List, [], ◌∷◌,
  ◌==◌, ltb, if◌then◌else◌,
}
use teamview.Prelude.BtreeMap
use teamview.Prelude.BtreeMap.{Map}
use teamview.Prelude.Result.{Result, ok, err, panic}
use teamview.Prelude.Words.{saturating_add, saturating_sub, max_of, cast}
use teamview.Protocol.Codec.{eq_codec}
use teamview.Protocol.Wire.{Wire}
use teamview.Protocol.Packet.{PacketType, MediaPacket, eq_packet_type, encode}
use teamview.Protocol.Frame.{div_ceil}
use teamview.Protocol.Control.Names.{UserId, StreamId, MediaKind, is_voice}
use teamview.Relay.Room.{PublishedStream}
use teamview.Relay.Control.State.{ControlState, published_stream}
use teamview.Relay.Control.Voice.{voice_publisher_can_send, voice_state_for_stream}
use teamview.Relay.Control.Feedback.{MediaForwardSummary}

abbrev pub default_egress_queue_capacity : ℕ
default_egress_queue_capacity = 256

abbrev pub default_viewer_queue_budget_ms : ℕ
default_viewer_queue_budget_ms = 100

pub record EgressDatagram : Type 0 where
  pub stream_id : StreamId
  pub packet : MediaPacket
  pub media_duration_ms : ℕ

pub record EgressQueueDepth : Type 0 where
  pub queued_packets : ℕ
  pub queued_media_ms : ℕ

abbrev pub no_depth : EgressQueueDepth
no_depth = record { queued_packets = 0; queued_media_ms = 0 }

unfoldable pub packet_for_egress : MediaPacket → ℕ → MediaPacket
packet_for_egress packet server_receive_time_micros = record packet {
  header = record packet.header {
    server_receive_time_micros = server_receive_time_micros;
    server_send_time_micros = 0;
  };
}

-- The depth with one more datagram of that duration.
unfoldable pub grown : EgressQueueDepth → ℕ → EgressQueueDepth
grown depth media_duration_ms = record {
  queued_packets = saturating_add 32 depth.queued_packets 1;
  queued_media_ms =
      saturating_add 16 depth.queued_media_ms (cast 16 (min media_duration_ms (max_of 16)));
}

-- The answer, and the depths afterwards.
unfoldable pub try_reserve_stream_depth :
    Map EgressQueueDepth → StreamId → ℕ → ℕ → Bool × Map EgressQueueDepth
unfolding grown
try_reserve_stream_depth depths stream_id media_duration_ms queue_budget_ms =
    let next = grown (BtreeMap.get_or stream_id no_depth depths) media_duration_ms in
    if ltb queue_budget_ms next.queued_media_ms
    then (false, depths)
    else (true, BtreeMap.insert stream_id next depths)

unfoldable pub released : EgressQueueDepth → ℕ → EgressQueueDepth
released depth media_duration_ms = record {
  queued_packets = saturating_sub depth.queued_packets 1;
  queued_media_ms = saturating_sub depth.queued_media_ms media_duration_ms;
}

unfoldable pub release_stream_depth : Map EgressQueueDepth → StreamId → ℕ → Map EgressQueueDepth
unfolding released
release_stream_depth depths stream_id media_duration_ms = elim (BtreeMap.lookup stream_id depths) [
  | none ↦ depths
  | some current ↦
      let depth = released current media_duration_ms in
      if depth.queued_packets == 0 && depth.queued_media_ms == 0
      then BtreeMap.remove stream_id depths
      else BtreeMap.insert stream_id depth depths
]

unfoldable pub packet_media_duration_ms : MediaPacket → PublishedStream → ℕ → ℕ
packet_media_duration_ms packet published queue_budget_ms =
    let rate : ℕ = elim published.config [
      | some config ↦ config.frames_per_second
      | none ↦ published.target_frames_per_second
    ] in
    let frame_duration_ms = min (div_ceil 1000 (max rate 1)) (max queue_budget_ms 1) in
    let fragment_count = max packet.header.fragment_count 1 in
    cast 16 (min (max (frame_duration_ms / fragment_count) 1) (max_of 16))

unfoldable pub media_kind_packet_type : MediaKind → PacketType
media_kind_packet_type MediaKind.screen = PacketType.video
media_kind_packet_type MediaKind.voice = PacketType.audio
media_kind_packet_type MediaKind.probe = PacketType.probe

abbrev pub is_ok : {E A : Type 0} → Result E A → Bool
is_ok (ok a) = true
is_ok (err e) = false
is_ok panic = false

abbrev pub one_queued : MediaForwardSummary → MediaForwardSummary
one_queued summary = record summary { queued = summary.queued + 1 }

abbrev pub one_dropped : MediaForwardSummary → MediaForwardSummary
one_dropped summary = record summary { dropped = summary.dropped + 1 }

-- The guards of `forward_media_packet`, in the code's order: the stream if the packet may pass.
unfoldable pub accepted_stream : Wire → ControlState → UserId → MediaPacket → Option PublishedStream
unfolding eq_codec eq_packet_type is_voice
accepted_stream w state publisher_id packet =
    let stream_id = packet.header.room_stream_id in
    elim (published_stream state stream_id) [
      | none ↦ none
      | some published ↦
          if not (published.publisher_id == publisher_id)
            || not (eq_codec published.codec packet.header.codec)
            || not (
                eq_packet_type (media_kind_packet_type published.media_kind)
                  packet.header.packet_type)
          then none
          else (if is_voice published.media_kind
                && not (voice_publisher_can_send state stream_id publisher_id)
              then none
              else (if is_ok (encode w packet) then some published else none))
    ]

-- A viewer who has switched the sound off.
unfoldable pub is_deafened : ControlState → PublishedStream → StreamId → UserId → Bool
is_deafened state published stream_id subscriber_id =
    is_voice published.media_kind && elim (voice_state_for_stream state stream_id subscriber_id) [
      | some voice_state ↦ voice_state.deafened
      | none ↦ false
    ]

-- The datagram that a packet of an accepted stream becomes.
unfoldable pub datagram_of : MediaPacket → PublishedStream → ℕ → ℕ → EgressDatagram
datagram_of packet published budget server_receive_time_micros = record {
  stream_id = packet.header.room_stream_id;
  packet = packet_for_egress packet server_receive_time_micros;
  media_duration_ms = packet_media_duration_ms packet published budget;
}

unfoldable pub add_depths : EgressQueueDepth → EgressQueueDepth → EgressQueueDepth
add_depths total depth = record {
  queued_packets = saturating_add 32 total.queued_packets depth.queued_packets;
  queued_media_ms = saturating_add 16 total.queued_media_ms depth.queued_media_ms;
}

-- The bytes that go out for a received datagram, stamped with the time of sending.
unfoldable pub outgoing : Wire → EgressDatagram → ℕ → Option (List ℕ)
outgoing w datagram now =
    elim (encode w (record datagram.packet {
      header = record datagram.packet.header { server_send_time_micros = now };
    })) [ ok bytes ↦ some bytes | err e ↦ none | panic ↦ none ]
