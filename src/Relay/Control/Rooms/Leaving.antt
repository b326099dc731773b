-- ===== src/Relay/Control/Rooms/Leaving.antt =====
-- Requests by which a user leaves streams or rooms, and `disconnect_user`, in
-- crates/relay-server/src/control.rs.
use teamview.Prelude.{
  ◌≡◌, refl, ◌∙◌, false, some, List, [], ◌∷◌, if◌then◌else◌, arith, Option-cases, Bool-cases, inl,
  inr,
}
use teamview.Prelude.BtreeMap
use teamview.Prelude.BtreeMap.{Map}
use teamview.Prelude.BtreeSet
use teamview.Protocol.Control.Names.{RoomId, UserId, StreamId}
use teamview.Protocol.Control.Rooms.{UnsubscribeStream}
use teamview.Relay.Session.{Session}
use teamview.Relay.Config.{ControlLimits}
use teamview.Relay.Room.{
  Room, PublishedStream, new_room, join, leave, remove_published_stream, subscribe, unsubscribe,
  streams_published_by,
}
use teamview.Relay.Room
use teamview.Relay.Room.Invariant.{IsWellFormed, unsubscribe-IsWellFormed}
use teamview.Relay.Control.State.{ControlState}
use teamview.Relay.Control.Membership.{
  leave_room, leave_found_room, remove_room_if_empty, room_is_empty, without_user,
  remove_viewer_stats, remove_viewer_stats_of, remove_stream_states, remove_stream_state,
  streams_subscribed_by, leave_rooms,
}
use teamview.Relay.Control.Voice.{remove_voice_state}
use teamview.Relay.Control.Streams.{unsubscribe_stream, unsubscribed}
use teamview.Relay.Control.Membership.Departure.{
  without_user-sizes, without_user-streams, without_user-IsWellFormed,
}
use teamview.Relay.Control.Rooms.{
  IsOpenRoom, AreConsistent, IsConsistent, replace-AreConsistent, remove-AreConsistent,
  empty-streams,
}

-- Some steps change neither the rooms nor the limits.
record SameRooms (s s' : ControlState) : Type 0 where
  rooms_kept : s'.rooms ≡ s.rooms
  limits_kept : s'.limits ≡ s.limits
  names_kept : s'.display_names ≡ s.display_names

SameRooms-IsConsistent :
    (s s' : ControlState) → SameRooms s s' → AreConsistent s.limits s.rooms → IsConsistent s'
SameRooms-IsConsistent s s' k w = record {
  rooms_consistent = ground (arith, k.rooms_kept, k.limits_kept, w);
}

SameRooms-trans : (s t u : ControlState) → SameRooms s t → SameRooms t u → SameRooms s u
SameRooms-trans s t u h k = record {
  rooms_kept = k.rooms_kept ∙ h.rooms_kept;
  limits_kept = k.limits_kept ∙ h.limits_kept;
  names_kept = k.names_kept ∙ h.names_kept;
}

remove_viewer_stats-SameRooms :
    (s : ControlState) (k : StreamId) (user_id : UserId)
    → SameRooms s (remove_viewer_stats s k user_id)
unfolding remove_viewer_stats
remove_viewer_stats-SameRooms s k user_id = record {
  rooms_kept = ground arith;
  limits_kept = ground arith;
  names_kept = ground arith;
}

remove_viewer_stats_of-SameRooms :
    (s : ControlState) (ks : List StreamId) (user_id : UserId)
    → SameRooms s (remove_viewer_stats_of s ks user_id)
unfolding remove_viewer_stats_of
remove_viewer_stats_of-SameRooms s [] user_id = record {
  rooms_kept = refl;
  limits_kept = refl;
  names_kept = refl;
}
remove_viewer_stats_of-SameRooms s (k ∷ ks) user_id =
    SameRooms-trans s (remove_viewer_stats s k user_id) _
      (remove_viewer_stats-SameRooms s k user_id)
      (remove_viewer_stats_of-SameRooms (remove_viewer_stats s k user_id) ks user_id)

remove_stream_states-SameRooms :
    (s : ControlState) (ks : List StreamId) → SameRooms s (remove_stream_states s ks)
unfolding remove_stream_states remove_stream_state
remove_stream_states-SameRooms s [] = record {
  rooms_kept = refl;
  limits_kept = refl;
  names_kept = refl;
}
remove_stream_states-SameRooms s (k ∷ ks) =
    let ih = remove_stream_states-SameRooms (remove_stream_state s k) ks in
    record { rooms_kept = ih.rooms_kept; limits_kept = ih.limits_kept; names_kept = ih.names_kept }

remove_voice_state-SameRooms :
    (s : ControlState) (room_id : RoomId) (user_id : UserId)
    → SameRooms s (remove_voice_state s room_id user_id)
unfolding remove_voice_state
remove_voice_state-SameRooms s room_id user_id = record {
  rooms_kept = ground arith;
  limits_kept = ground arith;
  names_kept = ground arith;
}

unsubscribed-IsOpenRoom :
    (limits : ControlLimits) (room_id : RoomId) (r : Room) (k : StreamId) (user_id : UserId)
    → IsOpenRoom limits room_id r
    → IsOpenRoom limits room_id (unsubscribe r k user_id)
unfolding unsubscribe
unsubscribed-IsOpenRoom limits room_id r k user_id o = record {
  keyed = ground (arith, o.keyed);
  well_formed = unsubscribe-IsWellFormed r k user_id o.well_formed;
  someone = ground (arith, o.someone);
  participant_limit = ground (arith, o.participant_limit);
  stream_limit = ground (arith, o.stream_limit);
  targeted = λ q v e. o.targeted q v (ground (arith, e));
}

pub unsubscribe_stream-IsConsistent :
    (s : ControlState) (session : Session) (request : UnsubscribeStream)
    → IsConsistent s
    → IsConsistent (unsubscribe_stream s session request).0
unfolding unsubscribe_stream unsubscribed
unsubscribe_stream-IsConsistent s session request c =
    let w = c.rooms_consistent in
    elim (Option-cases (BtreeMap.lookup request.room_id s.rooms)) [
      | inl e ↦ rw (unsubscribe_stream, e) c
      | inr (r, e) ↦ elim (Option-cases session.user_id) [
        | inl e' ↦ rw (unsubscribe_stream, e, e') c
        | inr (user_id, e') ↦
            let s₁ = record s {
              rooms =
                  BtreeMap.insert request.room_id (unsubscribe r request.stream_id user_id) s.rooms;
            } in
            let o =
              unsubscribed-IsOpenRoom s.limits request.room_id r request.stream_id user_id
                (w.open_rooms request.room_id r e) in
            rw (unsubscribe_stream, e, e')
              (SameRooms-IsConsistent s₁ _
                (remove_viewer_stats-SameRooms s₁ request.stream_id user_id)
                (replace-AreConsistent s.limits s.rooms request.room_id r _ e o w))
      ]
    ]

-- The state of `leave_found_room` before its last step.
abbrev cleared : ControlState → UserId → RoomId → Room → ControlState
cleared s user_id room_id r =
    let s₁ = record s { rooms = BtreeMap.insert room_id (without_user r user_id) s.rooms } in
    let s₂ = remove_viewer_stats_of s₁ (streams_subscribed_by r user_id) user_id in
    let s₃ = remove_voice_state s₂ room_id user_id in
    remove_stream_states s₃ (streams_published_by r user_id)

cleared-SameRooms :
    (s : ControlState) (user_id : UserId) (room_id : RoomId) (r : Room)
    → SameRooms
        (record s { rooms = BtreeMap.insert room_id (without_user r user_id) s.rooms })
        (cleared s user_id room_id r)
cleared-SameRooms s user_id room_id r =
    let s₁ = record s { rooms = BtreeMap.insert room_id (without_user r user_id) s.rooms } in
    let s₂ = remove_viewer_stats_of s₁ (streams_subscribed_by r user_id) user_id in
    let s₃ = remove_voice_state s₂ room_id user_id in
    SameRooms-trans s₁ s₃ _
      (SameRooms-trans s₁ s₂ s₃ (remove_viewer_stats_of-SameRooms s₁ _ user_id)
        (remove_voice_state-SameRooms s₂ room_id user_id))
      (remove_stream_states-SameRooms s₃ _)

leave_found_room-limits :
    (s : ControlState) (user_id : UserId) (room_id : RoomId) (r : Room)
    → (leave_found_room s user_id room_id r).limits ≡ s.limits
unfolding leave_found_room remove_room_if_empty
leave_found_room-limits s user_id room_id r =
    let k = (cleared-SameRooms s user_id room_id r).limits_kept in ground (arith, k)

-- What `leave_found_room` makes of the rooms: the room without the user, or no room if no
-- participant is left.
pub leave_found_room-rooms :
    (s : ControlState) (user_id : UserId) (room_id : RoomId) (r : Room)
    → IsWellFormed r
    → (let r' = without_user r user_id in
        let rooms = BtreeMap.insert room_id r' s.rooms in
        (leave_found_room s user_id room_id r).rooms
        ≡ (if BtreeSet.is_empty r'.participants then BtreeMap.remove room_id rooms else rooms))
unfolding leave_found_room remove_room_if_empty room_is_empty Room.is_empty
leave_found_room-rooms s user_id room_id r w =
    let r' = without_user r user_id in
    let k = (cleared-SameRooms s user_id room_id r).rooms_kept in
    let l = BtreeMap.lookup-insert room_id room_id r' s.rooms in
    let z = empty-streams r' (without_user-IsWellFormed r user_id w) in ground (arith, k, l, z)

left-IsOpenRoom :
    (limits : ControlLimits) (room_id : RoomId) (r : Room) (user_id : UserId)
    → BtreeSet.is_empty (without_user r user_id).participants ≡ false
    → IsOpenRoom limits room_id r
    → IsOpenRoom limits room_id (without_user r user_id)
left-IsOpenRoom limits room_id r user_id someone o =
    let f = without_user-sizes r user_id in
    record {
      keyed = f.0 ∙ o.keyed;
      well_formed = without_user-IsWellFormed r user_id o.well_formed;
      someone = someone;
      participant_limit = omega (arith, f.1, o.participant_limit);
      stream_limit = omega (arith, f.2, o.stream_limit);
      targeted = λ k v e. o.targeted k v (without_user-streams r user_id k v o.well_formed e);
    }

leave_found_room-IsConsistent :
    (s : ControlState) (user_id : UserId) (room_id : RoomId) (r : Room)
    → BtreeMap.lookup room_id s.rooms ≡ some r
    → IsConsistent s
    → IsConsistent (leave_found_room s user_id room_id r)
leave_found_room-IsConsistent s user_id room_id r e c =
    let w = c.rooms_consistent in
    let o = w.open_rooms room_id r e in
    let r' = without_user r user_id in
    let rooms = leave_found_room-rooms s user_id room_id r o.well_formed in
    let limits = leave_found_room-limits s user_id room_id r in
    elim (Bool-cases (BtreeSet.is_empty r'.participants)) [
      | inl z ↦ record {
        rooms_consistent =
            rw (limits, rooms, z) (remove-AreConsistent s.limits s.rooms room_id r r' e w);
      }
      | inr z ↦ record {
        rooms_consistent =
            rw (limits, rooms, z)
              (replace-AreConsistent s.limits s.rooms room_id r r' e
                (left-IsOpenRoom s.limits room_id r user_id z o) w);
      }
    ]

pub leave_room-IsConsistent :
    (s : ControlState) (user_id : UserId) (room_id : RoomId)
    → IsConsistent s
    → IsConsistent (leave_room s user_id room_id)
unfolding leave_room
leave_room-IsConsistent s user_id room_id c =
    elim (Option-cases (BtreeMap.lookup room_id s.rooms)) [
      | inl e ↦ rw (leave_room, e) c
      | inr (r, e) ↦ rw (leave_room, e) (leave_found_room-IsConsistent s user_id room_id r e c)
    ]

pub leave_rooms-IsConsistent :
    (s : ControlState) (user_id : UserId) (ids : List RoomId)
    → IsConsistent s
    → IsConsistent (leave_rooms s user_id ids)
unfolding leave_rooms
leave_rooms-IsConsistent s user_id [] c = c
leave_rooms-IsConsistent s user_id (k ∷ ids) c =
    leave_rooms-IsConsistent (leave_room s user_id k) user_id ids
      (leave_room-IsConsistent s user_id k c)
