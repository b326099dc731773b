-- ===== src/Relay/Media/Egress.antt =====
-- crates/relay-server/src/media.rs: the relay's egress queues, one for each connected viewer, and the
-- forwarding of a packet to them.
use teamview.Prelude.{
  ℕ, max, Bool, true, false, Option, none, some, List, [], ◌∷◌, ◌==◌, if◌then◌else◌,
}
use teamview.Prelude.BtreeMap
use teamview.Prelude.BtreeMap.{Map}
use teamview.Protocol.Wire.{Wire}
use teamview.Protocol.Packet.{MediaPacket}
use teamview.Protocol.Control.Names.{UserId, StreamId}
use teamview.Relay.Room.{PublishedStream}
use teamview.Relay.Media.{
  EgressDatagram, EgressQueueDepth, no_depth, default_egress_queue_capacity,
  default_viewer_queue_budget_ms, try_reserve_stream_depth, release_stream_depth, accepted_stream,
  is_deafened, one_queued, one_dropped, datagram_of, add_depths, outgoing,
}
use teamview.Relay.Media.Channel.{Mpsc, SendOutcome}
use teamview.Relay.Control.State.{ControlState, subscribers_for_stream}
use teamview.Relay.Control.Feedback.{MediaForwardSummary}

-- The state that the relay and a viewer's send task share: the channel between them and the depths.
pub record ViewerEgress (Chan : Type 0) : Type 0 where
  pub sender : Chan
  pub stream_depths : Map EgressQueueDepth

pub record MediaRelay (Chan : Type 0) : Type 0 where
  pub egress : Map (ViewerEgress Chan)
  pub egress_queue_capacity : ℕ
  pub viewer_queue_budget_ms : ℕ

module _ {Chan : Type 0} (mpsc : Mpsc Chan EgressDatagram) where
  unfoldable pub with_egress_limits : ℕ → ℕ → MediaRelay Chan
  with_egress_limits egress_queue_capacity viewer_queue_budget_ms = record {
    egress = [];
    egress_queue_capacity = max egress_queue_capacity 1;
    viewer_queue_budget_ms = max viewer_queue_budget_ms 1;
  }

  unfoldable pub new_relay : MediaRelay Chan
  unfolding with_egress_limits
  new_relay = with_egress_limits default_egress_queue_capacity default_viewer_queue_budget_ms

  unfoldable pub with_egress_queue_capacity : ℕ → MediaRelay Chan
  unfolding with_egress_limits
  with_egress_queue_capacity egress_queue_capacity =
      with_egress_limits egress_queue_capacity default_viewer_queue_budget_ms

  unfoldable pub with_viewer_queue_budget_ms : ℕ → MediaRelay Chan
  unfolding with_egress_limits
  with_viewer_queue_budget_ms viewer_queue_budget_ms =
      with_egress_limits default_egress_queue_capacity viewer_queue_budget_ms

  unfoldable pub unregister : MediaRelay Chan → UserId → MediaRelay Chan
  unregister relay user_id = record relay { egress = BtreeMap.remove user_id relay.egress }

  -- The send task that is spawned is `send_next`, run until its channel is closed.
  unfoldable pub register : MediaRelay Chan → UserId → MediaRelay Chan
  unfolding unregister
  register relay user_id = record relay {
    egress =
        BtreeMap.insert user_id
          (record { sender = mpsc.channel relay.egress_queue_capacity; stream_depths = [] })
          (unregister relay user_id).egress;
  }

  unfoldable pub try_reserve_media : ViewerEgress Chan → StreamId → ℕ → ℕ → Bool × ViewerEgress Chan
  try_reserve_media egress stream_id media_duration_ms queue_budget_ms =
      let (reserved, stream_depths) =
        try_reserve_stream_depth egress.stream_depths stream_id media_duration_ms queue_budget_ms in
      (reserved, record egress { stream_depths = stream_depths })

  unfoldable pub release_media : ViewerEgress Chan → StreamId → ℕ → ViewerEgress Chan
  release_media egress stream_id media_duration_ms = record egress {
    stream_depths = release_stream_depth egress.stream_depths stream_id media_duration_ms;
  }

  unfoldable pub stream_depth : ViewerEgress Chan → StreamId → EgressQueueDepth
  stream_depth egress stream_id = BtreeMap.get_or stream_id no_depth egress.stream_depths

  -- The rest of the loop's body for a viewer with an egress queue: whether the datagram is queued, and
  -- the queue afterwards.
  unfoldable pub offer : ViewerEgress Chan → EgressDatagram → ℕ → Bool × ViewerEgress Chan
  unfolding try_reserve_media release_media
  offer egress datagram budget =
      let (reserved, egress') =
        try_reserve_media egress datagram.stream_id datagram.media_duration_ms budget in
      if reserved
      then (let (sender, outcome) = mpsc.try_send egress'.sender datagram in
          let after : ViewerEgress Chan = record egress' { sender = sender } in
          elim outcome [
            | SendOutcome.sent ↦ (true, after)
            | SendOutcome.full ↦
                (false, release_media after datagram.stream_id datagram.media_duration_ms)
            | SendOutcome.closed ↦
                (false, release_media after datagram.stream_id datagram.media_duration_ms)
          ])
      else (false, egress')

  unfoldable pub forward_to :
      ControlState
      → PublishedStream
      → UserId
      → EgressDatagram
      → MediaRelay Chan
      → MediaForwardSummary
      → UserId
      → MediaRelay Chan × MediaForwardSummary
  unfolding is_deafened offer
  forward_to state published publisher_id datagram relay summary subscriber_id =
      if subscriber_id == publisher_id
      then (relay, summary)
      else elim (BtreeMap.lookup subscriber_id relay.egress) [
        | none ↦ (relay, one_dropped summary)
        | some egress ↦
            if is_deafened state published datagram.stream_id subscriber_id
            then (relay, one_dropped summary)
            else (let (queued, egress') = offer egress datagram relay.viewer_queue_budget_ms in
                (
                  record relay { egress = BtreeMap.insert subscriber_id egress' relay.egress },
                  if queued then one_queued summary else one_dropped summary,
                ))
      ]

  unfoldable pub forward_to_all :
      ControlState
      → PublishedStream
      → UserId
      → EgressDatagram
      → MediaRelay Chan
      → MediaForwardSummary
      → List UserId
      → MediaRelay Chan × MediaForwardSummary
  unfolding forward_to
  forward_to_all state published publisher_id datagram relay summary [] = (relay, summary)
  forward_to_all state published publisher_id datagram relay summary (user_id ∷ user_ids) =
      let r = forward_to state published publisher_id datagram relay summary user_id in
      forward_to_all state published publisher_id datagram r.0 r.1 user_ids

  unfoldable pub forward_media_packet :
      Wire
      → MediaRelay Chan
      → ControlState
      → UserId
      → MediaPacket
      → ℕ
      → MediaRelay Chan × MediaForwardSummary
  unfolding accepted_stream forward_to_all datagram_of
  forward_media_packet w relay state publisher_id packet server_receive_time_micros =
      let stream_id = packet.header.room_stream_id in
      elim (accepted_stream w state publisher_id packet) [
        | none ↦ (relay, record { stream_id = stream_id; queued = 0; dropped = 1 })
        | some published ↦
            forward_to_all state published publisher_id
              (datagram_of packet published relay.viewer_queue_budget_ms server_receive_time_micros)
              relay (record { stream_id = stream_id; queued = 0; dropped = 0 })
              (subscribers_for_stream state stream_id)
      ]

  unfoldable pub total_depth :
      MediaRelay Chan → StreamId → EgressQueueDepth → List UserId → EgressQueueDepth
  unfolding add_depths stream_depth
  total_depth relay stream_id total [] = total
  total_depth relay stream_id total (user_id ∷ user_ids) =
      elim (BtreeMap.lookup user_id relay.egress) [
        | none ↦ total_depth relay stream_id total user_ids
        | some egress ↦
            total_depth relay stream_id (add_depths total (stream_depth egress stream_id)) user_ids
      ]

  unfoldable pub stream_egress_depth : MediaRelay Chan → ControlState → StreamId → EgressQueueDepth
  unfolding total_depth
  stream_egress_depth relay state stream_id =
      total_depth relay stream_id no_depth (subscribers_for_stream state stream_id)

  -- One round of `send_viewer_egress`: what it sends, and the shared state afterwards; nothing where
  -- it waits or ends.
  unfoldable pub send_next :
      Wire → ViewerEgress Chan → ℕ → Option (ViewerEgress Chan × Option (List ℕ))
  unfolding release_media outgoing
  send_next w egress now = elim (mpsc.recv egress.sender) [
    | none ↦ none
    | some r ↦
        let (datagram, sender) = r in
        let after : ViewerEgress Chan = record egress { sender = sender } in
        some (
          release_media after datagram.stream_id datagram.media_duration_ms,
          outgoing w datagram now,
        )
  ]
