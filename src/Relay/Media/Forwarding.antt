-- ===== src/Relay/Media/Forwarding.antt =====
-- Which viewers a forwarded packet reaches in crates/relay-server/src/media.rs.
use teamview.Prelude.{
  ℕ, suc, ◌∙◌, ◌+◌, ◌≡◌, refl, Bool, true, false, not, ◌&&◌, ◌||◌, ==_iff, subst, sym, Option, none,
  some, List, [], ◌∷◌, ◌==◌, if◌then◌else◌, Bool-cases, Option-cases, ◌⊎◌, inl, inr, arith,
}
use teamview.Prelude.BtreeMap
use teamview.Prelude.BtreeMap.{Map}
use teamview.Prelude.BtreeSet
use teamview.Protocol.Wire.{Wire}
use teamview.Protocol.Packet.{MediaPacket, encode, eq_packet_type, eq_packet_type_iff}
use teamview.Protocol.Codec.{eq_codec, eq_codec_iff}
use teamview.Prelude.Result.{Result, ok, err, panic}
use teamview.Protocol.Control.Names.{UserId, MediaKind, is_voice}
use teamview.Relay.Room.{PublishedStream}
use teamview.Relay.Media.{
  EgressDatagram, is_ok, media_kind_packet_type, accepted_stream, is_deafened, datagram_of,
}
use teamview.Relay.Media.Channel.{Mpsc}
use teamview.Relay.Media.Egress.{
  ViewerEgress, MediaRelay, offer, forward_to, forward_to_all, forward_media_packet,
}
use teamview.Relay.Control.Voice.{voice_publisher_can_send}
use teamview.Relay.Control.State.{ControlState, published_stream, subscribers_for_stream}
use teamview.Relay.Control.Feedback.{MediaForwardSummary}

-- The viewers other than the publisher.
abbrev pub count_others : UserId → List UserId → ℕ
count_others publisher_id [] = 0
count_others publisher_id (u ∷ us) =
    (if u == publisher_id then 0 else 1) + count_others publisher_id us

module _ {Chan : Type 0} (mpsc : Mpsc Chan EgressDatagram) (state : ControlState)
    (published : PublishedStream) (publisher_id : UserId) (datagram : EgressDatagram) where
  -- What forwarding does to the egress queue of one viewer who subscribes.
  unfoldable pub offered_to : ℕ → UserId → Option (ViewerEgress Chan) → Option (ViewerEgress Chan)
  unfolding is_deafened offer
  offered_to budget user_id none = none
  offered_to budget user_id (some egress) =
      if user_id == publisher_id
      then some egress
      else (if is_deafened state published datagram.stream_id user_id
          then some egress
          else some (offer mpsc egress datagram budget).1)

  forward_to-counts :
      (relay : MediaRelay Chan) (summary : MediaForwardSummary) (u : UserId)
      → (forward_to mpsc state published publisher_id datagram relay summary u).1.queued
          + (forward_to mpsc state published publisher_id datagram relay summary u).1.dropped
        ≡ (summary.queued + summary.dropped) + (if u == publisher_id then 0 else 1)
  unfolding forward_to
  forward_to-counts relay summary u = ground arith

  forward_to_all-counts :
      (relay : MediaRelay Chan) (summary : MediaForwardSummary) (us : List UserId)
      → (forward_to_all mpsc state published publisher_id datagram relay summary us).1.queued
          + (forward_to_all mpsc state published publisher_id datagram relay summary us).1.dropped
        ≡ (summary.queued + summary.dropped) + count_others publisher_id us
  unfolding forward_to_all
  forward_to_all-counts relay summary [] = omega arith
  forward_to_all-counts relay summary (u ∷ us) =
      let r = forward_to mpsc state published publisher_id datagram relay summary u in
      omega (arith, forward_to-counts relay summary u, forward_to_all-counts r.0 r.1 us)

  forward_to-lookup :
      (relay : MediaRelay Chan) (summary : MediaForwardSummary) (u q : UserId)
      → let r = forward_to mpsc state published publisher_id datagram relay summary u in
        (r.0.viewer_queue_budget_ms ≡ relay.viewer_queue_budget_ms)
        × (BtreeMap.lookup q r.0.egress ≡ (
            if u == q
            then offered_to relay.viewer_queue_budget_ms q (BtreeMap.lookup q relay.egress)
            else BtreeMap.lookup q relay.egress))
  unfolding forward_to offered_to
  forward_to-lookup relay summary u q = elim (Option-cases (BtreeMap.lookup u relay.egress)) [
    | inl missing ↦ ground (arith, missing)
    | inr (e, found) ↦
        let i =
          BtreeMap.lookup-insert q u (offer mpsc e datagram relay.viewer_queue_budget_ms).1
            relay.egress in
        ground (arith, found, i)
  ]

  forward_to_all-lookup :
      (lo : ℕ) (us : List UserId) (relay : MediaRelay Chan) (summary : MediaForwardSummary)
      (q : UserId)
      → BtreeSet.SortedFrom lo us
      → BtreeMap.lookup q
          (forward_to_all mpsc state published publisher_id datagram relay summary us).0.egress
        ≡ (if BtreeSet.contains q us
            then offered_to relay.viewer_queue_budget_ms q (BtreeMap.lookup q relay.egress)
            else BtreeMap.lookup q relay.egress)
  unfolding forward_to_all BtreeSet.contains
  forward_to_all-lookup lo [] relay summary q sorted = refl
  forward_to_all-lookup lo (u ∷ us) relay summary q sorted =
      let r = forward_to mpsc state published publisher_id datagram relay summary u in
      let (same, first) = forward_to-lookup relay summary u q in
      let rest = forward_to_all-lookup (suc u) us r.0 r.1 q sorted.1 in
      let once = BtreeSet.contains_below (suc u) q us sorted.1 in
      rest
      ∙ rw (same, first)
          (elim (Bool-cases (u == q)) [
            | inl here ↦
                let absent : BtreeSet.contains q us ≡ false = once (ground (arith, here)) in
                rw (here, absent)
            | inr elsewhere ↦ rw elsewhere
          ])

is_ok_value : {E A : Type 0} (r : Result E A) → is_ok r ≡ true → (a : A) × (r ≡ ok a)
is_ok_value (ok a) h = (a, refl)
is_ok_value (err e) h = ground arith
is_ok_value panic h = ground arith

-- What it takes for a packet to pass the guards.
pub record IsAccepted (w : Wire) (state : ControlState) (publisher_id : UserId)
    (packet : MediaPacket) : Type 0 where
  pub stream : PublishedStream
  pub bytes : List ℕ
  pub published : published_stream state packet.header.room_stream_id ≡ some stream
  pub own : stream.publisher_id ≡ publisher_id
  pub same_codec : stream.codec ≡ packet.header.codec
  pub same_kind : media_kind_packet_type stream.media_kind ≡ packet.header.packet_type
  pub may_speak :
      stream.media_kind ≡ MediaKind.voice
      → voice_publisher_can_send state packet.header.room_stream_id publisher_id ≡ true
  pub encoded : encode w packet ≡ ok bytes

guards_passed :
    (a b c v e : Bool) (p q : PublishedStream)
    → (if a || b || c then none else (if v then none else (if e then some p else none))) ≡ some q
    → (p ≡ q) × (a ≡ false) × (b ≡ false) × (c ≡ false) × (v ≡ false) × (e ≡ true)
guards_passed a b c v e p q passed = ground (arith, passed)

no_value : {A : Type 0} {B : Type 0} {a : A} → none ≡ some a → B
no_value e = ground arith

same_of_not : (a : Bool) → not a ≡ false → a ≡ true
same_of_not a h = ground (arith, h)

accepted_stream-IsAccepted :
    (w : Wire) (state : ControlState) (publisher_id : UserId) (packet : MediaPacket)
    (stream : PublishedStream)
    → accepted_stream w state publisher_id packet ≡ some stream
    → (o : Option PublishedStream) → published_stream state packet.header.room_stream_id ≡ o
    → IsAccepted w state publisher_id packet
unfolding accepted_stream is_voice
accepted_stream-IsAccepted w state publisher_id packet stream accepted none missing =
    let nothing : accepted_stream w state publisher_id packet ≡ none =
      rw (accepted_stream, missing) in
    no_value (sym nothing ∙ accepted)
accepted_stream-IsAccepted w state publisher_id packet stream accepted (some p) found =
    let stream_id = packet.header.room_stream_id in
    let guarded =
      guards_passed (not (p.publisher_id == publisher_id))
        (not (eq_codec p.codec packet.header.codec))
        (not (eq_packet_type (media_kind_packet_type p.media_kind) packet.header.packet_type))
        (is_voice p.media_kind && not (voice_publisher_can_send state stream_id publisher_id))
        (is_ok (encode w packet)) p stream (rw (← accepted, accepted_stream, found)) in
    let bytes = is_ok_value (encode w packet) guarded.5 in
    record {
      stream = p;
      bytes = bytes.0;
      published = found;
      own = (==_iff p.publisher_id publisher_id).0 (same_of_not _ guarded.1);
      same_codec = (eq_codec_iff p.codec packet.header.codec).0 (same_of_not _ guarded.2);
      same_kind =
          (eq_packet_type_iff (media_kind_packet_type p.media_kind) packet.header.packet_type).0
            (same_of_not _ guarded.3);
      may_speak = λ voice. same_of_not _ (
          subst
            (λ k. is_voice k && not (voice_publisher_can_send state stream_id publisher_id) ≡ false)
            voice guarded.4);
      encoded = bytes.1;
    }

module _ {Chan : Type 0} (mpsc : Mpsc Chan EgressDatagram) (w : Wire) (relay : MediaRelay Chan)
    (state : ControlState) (publisher_id : UserId) (packet : MediaPacket) (received_at : ℕ) where
  -- A packet changes no egress queue and counts as one dropped, unless a room publishes its stream,
  -- the sender is the publisher, the codec and the packet type are the stream's, a voice publisher
  -- may speak, and the packet can be encoded.
  pub forward_media_packet-IsAccepted :
      (IsAccepted w state publisher_id packet)
      ⊎ (forward_media_packet mpsc w relay state publisher_id packet received_at
          ≡ (relay, record { stream_id = packet.header.room_stream_id; queued = 0; dropped = 1 }))
  unfolding forward_media_packet
  forward_media_packet-IsAccepted =
      elim (Option-cases (accepted_stream w state publisher_id packet)) [
        | inl refused ↦ inr (rw (forward_media_packet, refused))
        | inr (published, accepted) ↦
            inl (accepted_stream-IsAccepted w state publisher_id packet published accepted _ refl)
      ]

  -- For an accepted packet, the queued and the dropped datagrams of the summary together are as
  -- many as the stream's subscribers other than the publisher.
  pub forward_media_packet-counts :
      (published : PublishedStream)
      → accepted_stream w state publisher_id packet ≡ some published
      → let summary = (forward_media_packet mpsc w relay state publisher_id packet received_at).1 in
        summary.queued + summary.dropped
        ≡ count_others publisher_id (subscribers_for_stream state packet.header.room_stream_id)
  unfolding forward_media_packet
  forward_media_packet-counts published accepted =
      rw (forward_media_packet, accepted)
        (omega (
          arith,
          forward_to_all-counts mpsc state published publisher_id
              (datagram_of packet published relay.viewer_queue_budget_ms received_at) relay _ _,
        ))

  -- Forwarding an accepted packet, with the stream's subscribers in ascending order, offers its
  -- datagram once to the egress queue of each subscriber other than the publisher and the deafened
  -- ones, and leaves every other user's queue as it was; what one viewer's queue becomes does not
  -- depend on the others.
  pub forward_media_packet-lookup :
      (published : PublishedStream) (q : UserId)
      → accepted_stream w state publisher_id packet ≡ some published
      → BtreeSet.IsSorted (subscribers_for_stream state packet.header.room_stream_id)
      → BtreeMap.lookup q
          (forward_media_packet mpsc w relay state publisher_id packet received_at).0.egress
        ≡ (if BtreeSet.contains q (subscribers_for_stream state packet.header.room_stream_id)
            then offered_to mpsc state published publisher_id
                (datagram_of packet published relay.viewer_queue_budget_ms received_at)
                relay.viewer_queue_budget_ms
                q
                (BtreeMap.lookup q relay.egress)
            else BtreeMap.lookup q relay.egress)
  unfolding forward_media_packet
  forward_media_packet-lookup published q accepted sorted =
      rw (forward_media_packet, accepted)
        (forward_to_all-lookup mpsc state published publisher_id _ 0 _ relay _ q sorted)
