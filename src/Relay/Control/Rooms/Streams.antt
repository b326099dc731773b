-- ===== src/Relay/Control/Rooms/Streams.antt =====
-- Requests about streams that are published, in crates/relay-server/src/control.rs, keep the rooms consistent.
use teamview.Prelude.{◌≡◌, refl, sym, ◌∙◌, subst, true, some, ◌==◌, arith, Option-cases, inl, inr}
use teamview.Prelude.BtreeMap
use teamview.Prelude.BtreeMap.{Map}
use teamview.Prelude.BtreeSet
use teamview.Protocol.Control.Names.{RoomId, UserId, StreamId}
use teamview.Protocol.Control.Rooms.{UnpublishStream, SubscribeStream}
use teamview.Protocol.Control.Media.{StreamConfig}
use teamview.Protocol.Control.Envelope.{ServerControl}
use teamview.Relay.Session.{Session}
use teamview.Relay.Config.{ControlLimits}
use teamview.Relay.Room.{
  Room, PublishedStream, new_room, join, leave, remove_published_stream, subscribe, unsubscribe,
  streams_published_by,
}
use teamview.Relay.Room
use teamview.Protocol.Codec.{eq_codec}
use teamview.Relay.Room.Invariant.{
  IsWellFormed, publish_stream-IsWellFormed, remove_published_stream-IsWellFormed,
  subscribe-IsWellFormed,
}
use teamview.Relay.Control.State.{ControlState}
use teamview.Relay.Control.Checks.{answer-some_or, answer-require}
use teamview.Relay.Control.Membership.{remove_room_if_empty, room_is_empty, remove_stream_state}
use teamview.Relay.Control.Streams.{
  unpublish_stream, subscribe_stream, set_stream_config, with_config, allowed_config,
  register_keyframe_request,
}
use teamview.Relay.Control.Targets.Bounds.{IsTargeted}
use teamview.Relay.Control.Rooms.Targeted.{with_config-IsTargeted}
use teamview.Relay.Control.Rooms.{IsOpenRoom, AreConsistent, IsConsistent, replace-AreConsistent}

-- What a handler has to keep.
abbrev Keeps : ControlState × ServerControl → Type 0
Keeps o = IsConsistent o.0

-- A published stream is replaced by one with the same identifier and publisher.
pub restream-IsOpenRoom :
    (limits : ControlLimits) (room_id : RoomId) (r : Room) (k : StreamId)
    (old new : PublishedStream)
    → BtreeMap.lookup k r.published_streams ≡ some old
    → new.stream_id ≡ old.stream_id
    → new.publisher_id ≡ old.publisher_id
    → IsTargeted new
    → IsOpenRoom limits room_id r
    → IsOpenRoom limits room_id
        (record r { published_streams = BtreeMap.insert k new r.published_streams })
unfolding Room.publish_stream BtreeMap.contains_key
restream-IsOpenRoom limits room_id r k old new found same_id same_publisher t o =
    let own = o.well_formed.streams_owned k old found in
    let l = BtreeMap.length-insert 0 k new r.published_streams o.well_formed.streams_ordered in
    let w =
      publish_stream-IsWellFormed r new (ground (arith, own.owned, same_publisher)) o.well_formed in
    record {
      keyed = o.keyed;
      well_formed =
          subst
            (λ j.
              IsWellFormed
                (record r { published_streams = BtreeMap.insert j new r.published_streams }))
            (same_id ∙ own.keyed) w;
      someone = o.someone;
      participant_limit = o.participant_limit;
      stream_limit = ground (arith, l, found, o.stream_limit);
      targeted =
          BtreeMap.Forall-insert (λ _ v. IsTargeted v) k new r.published_streams t o.targeted;
    }

pub set_stream_config-IsConsistent :
    (s : ControlState) (session : Session) (config : StreamConfig)
    → IsConsistent s
    → IsConsistent (set_stream_config s session config).0
unfolding set_stream_config with_config
set_stream_config-IsConsistent s session config c =
    let w = c.rooms_consistent in
    answer-some_or s Keeps (λ e. c) session.user_id _ _
      λ user_id identified.
        answer-some_or s Keeps (λ e. c) (BtreeMap.lookup config.room_id s.rooms) _ _
          λ r found.
            answer-some_or s Keeps (λ e. c) (BtreeMap.lookup config.stream_id r.published_streams) _
              _
              λ stream published.
                answer-require s Keeps (λ e. c) (stream.publisher_id == user_id) _ _
                  λ own.
                    answer-require s Keeps (λ e. c) (eq_codec stream.codec config.codec) _ _
                      λ same. record {
                        rooms_consistent =
                            replace-AreConsistent s.limits s.rooms config.room_id r _ found
                              (restream-IsOpenRoom s.limits config.room_id r config.stream_id stream
                                (with_config (allowed_config config) stream) published refl refl
                                (with_config-IsTargeted config stream (
                                  (w.open_rooms config.room_id r found).targeted config.stream_id
                                    stream published))
                                (w.open_rooms config.room_id r found))
                              w;
                      }

unpublished-IsOpenRoom :
    (limits : ControlLimits) (room_id : RoomId) (r : Room) (k : StreamId)
    → IsOpenRoom limits room_id r
    → IsOpenRoom limits room_id (remove_published_stream r k).0
unfolding remove_published_stream
unpublished-IsOpenRoom limits room_id r k o = record {
  keyed = o.keyed;
  well_formed = remove_published_stream-IsWellFormed r k o.well_formed;
  someone = o.someone;
  participant_limit = o.participant_limit;
  stream_limit = ground (arith, BtreeMap.length-remove-le k r.published_streams, o.stream_limit);
  targeted = BtreeMap.Forall-remove (λ _ v. IsTargeted v) k r.published_streams o.targeted;
}

-- A room that has a participant is not removed.
remove_room_if_empty-open :
    (s : ControlState) (room_id : RoomId)
    → AreConsistent s.limits s.rooms
    → remove_room_if_empty s room_id ≡ s
unfolding remove_room_if_empty room_is_empty Room.is_empty
remove_room_if_empty-open s room_id w = elim (Option-cases (BtreeMap.lookup room_id s.rooms)) [
  | inl e ↦ rw (remove_room_if_empty, room_is_empty, e) refl
  | inr (r, e) ↦ let o = w.open_rooms room_id r e in ground (arith, e, o.someone)
]

pub unpublish_stream-IsConsistent :
    (s : ControlState) (session : Session) (request : UnpublishStream)
    → IsConsistent s
    → IsConsistent (unpublish_stream s session request).0
unfolding unpublish_stream remove_stream_state
unpublish_stream-IsConsistent s session request c =
    let w = c.rooms_consistent in
    answer-some_or s Keeps (λ e. c) session.user_id _ _
      λ user_id identified.
        answer-some_or s Keeps (λ e. c) (BtreeMap.lookup request.room_id s.rooms) _ _
          λ r found.
            answer-some_or s Keeps (λ e. c) (BtreeMap.lookup request.stream_id r.published_streams)
              _ _
              λ stream published.
                answer-require s Keeps (λ e. c) (stream.publisher_id == user_id) _ _
                  λ own.
                    answer-some_or s Keeps (λ e. c) (remove_published_stream r request.stream_id).1
                      _ _
                      λ gone there.
                        let r' = (remove_published_stream r request.stream_id).0 in
                        let s₂ =
                          remove_stream_state
                            (record s { rooms = BtreeMap.insert request.room_id r' s.rooms })
                            request.stream_id in
                        let w' : AreConsistent s₂.limits s₂.rooms =
                          replace-AreConsistent s.limits s.rooms request.room_id r r' found
                            (unpublished-IsOpenRoom s.limits request.room_id r request.stream_id
                              (w.open_rooms request.room_id r found))
                            w in
                        subst IsConsistent (sym (remove_room_if_empty-open s₂ request.room_id w'))
                          (record { rooms_consistent = w' })

subscribed-IsOpenRoom :
    (limits : ControlLimits) (room_id : RoomId) (r : Room) (k : StreamId) (user_id : UserId)
    → BtreeSet.contains user_id r.participants ≡ true
    → IsOpenRoom limits room_id r
    → IsOpenRoom limits room_id (subscribe r k user_id).0
unfolding subscribe
subscribed-IsOpenRoom limits room_id r k user_id joined o = record {
  keyed = ground (arith, o.keyed);
  well_formed = subscribe-IsWellFormed r k user_id joined o.well_formed;
  someone = ground (arith, o.someone);
  participant_limit = ground (arith, o.participant_limit);
  stream_limit = ground (arith, o.stream_limit);
  targeted = λ q v e. o.targeted q v (ground (arith, e));
}

pub subscribe_stream-IsConsistent :
    (s : ControlState) (session : Session) (request : SubscribeStream)
    → IsConsistent s
    → IsConsistent (subscribe_stream s session request).0
unfolding subscribe_stream register_keyframe_request
subscribe_stream-IsConsistent s session request c =
    let w = c.rooms_consistent in
    answer-some_or s Keeps (λ e. c) (BtreeMap.lookup request.room_id s.rooms) _ _
      λ r found.
        answer-some_or s Keeps (λ e. c) session.user_id _ _
          λ user_id identified.
            answer-require s Keeps (λ e. c) (BtreeSet.contains user_id r.participants) _ _
              λ joined.
                answer-require s Keeps (λ e. c) (subscribe r request.stream_id user_id).1 _ _
                  λ subscribed.
                    let w' =
                      replace-AreConsistent s.limits s.rooms request.room_id r _ found
                        (subscribed-IsOpenRoom s.limits request.room_id r request.stream_id user_id
                          joined (w.open_rooms request.room_id r found))
                        w in
                    record { rooms_consistent = ground (arith, w') }
