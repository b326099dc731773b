-- ===== src/Relay/Control/Rooms/Steps.antt =====
-- Each request about rooms and streams of crates/relay-server/src/control.rs keeps the rooms consistent.
use teamview.Prelude.{◌≤◌, ◌≡◌, refl, true, not, ◌||◌, ltb, length, arith, ltb→lt}
use teamview.Prelude.BtreeMap
use teamview.Prelude.BtreeMap.{Map}
use teamview.Prelude.BtreeSet
use teamview.Protocol.Control.Names.{RoomId, UserId}
use teamview.Protocol.Control.Rooms.{CreateRoom, JoinRoom, PublishStream}
use teamview.Protocol.Control.Envelope.{ServerControl}
use teamview.Relay.Session.{Session, is_some}
use teamview.Relay.Config.{ControlLimits}
use teamview.Relay.Room.{
  Room, PublishedStream, new_room, join, leave, remove_published_stream, subscribe, unsubscribe,
  streams_published_by,
}
use teamview.Relay.Room
use teamview.Relay.Room.Invariant.{
  IsWellFormed, new_room-IsWellFormed, join-IsWellFormed, publish_stream-IsWellFormed,
}
use teamview.Relay.Control.State.{ControlState, publisher_for_stream}
use teamview.Relay.Control.Checks.{answer-some_or, answer-require}
use teamview.Relay.Control.Names.{sanitize_room_name}
use teamview.Relay.Control.Membership.{create_room, join_room}
use teamview.Relay.Control.Voice.{ensure_voice_state}
use teamview.Relay.Control.Streams.{publish_stream, fresh_stream}
use teamview.Relay.Control.Targets.Bounds.{IsTargeted}
use teamview.Relay.Control.Rooms.Targeted.{AreTargeted, fresh_stream-IsTargeted}
use teamview.Relay.Control.Rooms.{
  IsOpenRoom, IsConsistent, replace-AreConsistent, add-AreConsistent,
}

-- What a handler has to keep.
abbrev Keeps : ControlState × ServerControl → Type 0
Keeps o = IsConsistent o.0

joined-IsOpenRoom :
    (limits : ControlLimits) (room_id : RoomId) (r : Room) (user_id : UserId)
    → r.id ≡ room_id
    → IsWellFormed r
    → length r.published_streams ≤ limits.max_streams_per_room
    → length r.participants ≤ limits.max_participants_per_room
    → AreTargeted r.published_streams
    → (BtreeSet.contains user_id r.participants
        || ltb (length r.participants) limits.max_participants_per_room)
      ≡ true
    → IsOpenRoom limits room_id (join r user_id).0
unfolding join
joined-IsOpenRoom limits room_id r user_id keyed w streams bound targeted place = record {
  keyed = keyed;
  well_formed = join-IsWellFormed r user_id w;
  someone = BtreeSet.insert-is_empty user_id r.participants;
  participant_limit =
      ground (
        arith,
        BtreeSet.length-insert 0 user_id r.participants w.participants_ordered,
        place,
        bound,
      );
  stream_limit = streams;
  targeted = targeted;
}

pub create_room-IsConsistent :
    (s : ControlState) (session : Session) (create : CreateRoom)
    → IsConsistent s
    → IsConsistent (create_room s session create).0
unfolding create_room ensure_voice_state new_room BtreeSet.contains BtreeMap.lookup
create_room-IsConsistent s session create c =
    let w = c.rooms_consistent in
    answer-some_or s Keeps (λ e. c) session.user_id _ _
      λ user_id identified.
        answer-require s Keeps (λ e. c) (ltb (length s.rooms) s.limits.max_rooms) _ _
          λ place.
            let name = sanitize_room_name create.name s.next_room_id in
            record {
              rooms_consistent =
                  add-AreConsistent s.limits s.rooms s.next_room_id _ (ltb→lt _ _ place)
                    (joined-IsOpenRoom s.limits s.next_room_id (new_room s.next_room_id name)
                      user_id refl (new_room-IsWellFormed s.next_room_id name) (omega arith)
                      (omega arith) (λ k v e. ground (arith, e)) (ground (arith, w.room_for_one)))
                    w;
            }

pub join_room-IsConsistent :
    (s : ControlState) (session : Session) (request : JoinRoom)
    → IsConsistent s
    → IsConsistent (join_room s session request).0
unfolding join_room ensure_voice_state
join_room-IsConsistent s session request c =
    let w = c.rooms_consistent in
    answer-some_or s Keeps (λ e. c) (BtreeMap.lookup request.room_id s.rooms) _ _
      λ r found.
        answer-some_or s Keeps (λ e. c) session.user_id _ _
          λ user_id identified.
            answer-require s Keeps (λ e. c)
              (BtreeSet.contains user_id r.participants
                || ltb (length r.participants) s.limits.max_participants_per_room)
              _ _
              λ place.
                let o = w.open_rooms request.room_id r found in
                record {
                  rooms_consistent =
                      replace-AreConsistent s.limits s.rooms request.room_id r _ found
                        (joined-IsOpenRoom s.limits request.room_id r user_id o.keyed o.well_formed
                          o.stream_limit o.participant_limit o.targeted place)
                        w;
                }

pub publish_stream-IsConsistent :
    (s : ControlState) (session : Session) (publish : PublishStream)
    → IsConsistent s
    → IsConsistent (publish_stream s session publish).0
unfolding publish_stream Room.publish_stream fresh_stream
publish_stream-IsConsistent s session publish c =
    let w = c.rooms_consistent in
    answer-require s Keeps (λ e. c) (not (is_some (publisher_for_stream s publish.stream_id))) _ _
      λ free.
        answer-some_or s Keeps (λ e. c) (BtreeMap.lookup publish.room_id s.rooms) _ _
          λ r found.
            answer-some_or s Keeps (λ e. c) session.user_id _ _
              λ user_id identified.
                answer-require s Keeps (λ e. c) (BtreeSet.contains user_id r.participants) _ _
                  λ joined.
                    answer-require s Keeps (λ e. c)
                      (ltb (length r.published_streams) s.limits.max_streams_per_room) _ _
                      λ place.
                        let o = w.open_rooms publish.room_id r found in
                        let ordered = o.well_formed.streams_ordered in
                        let stream = fresh_stream publish user_id in
                        record {
                          rooms_consistent =
                              replace-AreConsistent s.limits s.rooms publish.room_id r _ found
                                (record {
                                  keyed = o.keyed;
                                  well_formed =
                                      publish_stream-IsWellFormed r stream joined o.well_formed;
                                  someone = o.someone;
                                  participant_limit = o.participant_limit;
                                  stream_limit = ground (
                                    arith,
                                    BtreeMap.length-insert 0 publish.stream_id stream
                                        r.published_streams ordered,
                                    place,
                                  );
                                  targeted =
                                      BtreeMap.Forall-insert (λ _ v. IsTargeted v) publish.stream_id
                                        stream r.published_streams
                                        (fresh_stream-IsTargeted publish user_id) o.targeted;
                                })
                                w;
                        }
