-- ===== src/Relay/Control/Rooms/Disconnect.antt =====
-- `disconnect_user` of crates/relay-server/src/control.rs: nothing of the user stays behind.
use teamview.Prelude.{
  ◌≡◌, refl, true, false, ◌||◌, none, some, List, [], ◌∷◌, ◌==◌, arith, Option-cases, Bool-cases,
  inl, inr,
}
use teamview.Prelude.BtreeMap
use teamview.Prelude.BtreeMap.{Map}
use teamview.Prelude.BtreeSet
use teamview.Protocol.Control.Names.{RoomId, UserId, StreamId}
use teamview.Relay.Room.{Room, PublishedStream}
use teamview.Relay.Control.State.{ControlState}
use teamview.Relay.Control.Membership.{
  leave_room, without_user, leave_rooms, affected_rooms, publishes_any, viewer_stats_without,
  disconnect_user,
}
use teamview.Relay.Control.Membership.Departure.{without_user-gone}
use teamview.Relay.Control.Rooms.{IsConsistent}
use teamview.Relay.Control.Rooms.Leaving.{
  leave_found_room-rooms, leave_room-IsConsistent, leave_rooms-IsConsistent,
}
use teamview.Protocol.Control.Media.{ViewerStatsReport}
use teamview.Prelude.{◌≢◌}

-- A room that still has the user was not left, and is as it was.
leave_room-others :
    (s : ControlState) (user_id : UserId) (room_id q : RoomId) (r : Room)
    → IsConsistent s
    → BtreeMap.lookup q (leave_room s user_id room_id).rooms ≡ some r
    → BtreeSet.contains user_id r.participants ≡ true
    → (BtreeMap.lookup q s.rooms ≡ some r) × ((room_id == q) ≡ false)
unfolding leave_room
leave_room-others s user_id room_id q r c e here =
    elim (Option-cases (BtreeMap.lookup room_id s.rooms)) [
      | inl z ↦ ground (arith, e, z)
      | inr (old, z) ↦
          let w = (c.rooms_consistent.open_rooms room_id old z).well_formed in
          let rooms = leave_found_room-rooms s user_id room_id old w in
          let added = BtreeMap.insert room_id (without_user old user_id) s.rooms in
          let i = BtreeMap.lookup-insert q room_id (without_user old user_id) s.rooms in
          let d = BtreeMap.lookup-remove q room_id added in
          let g = (without_user-gone old user_id w).0 in ground (arith, e, z, rooms, i, d, g, here)
    ]

leave_rooms-others :
    (s : ControlState) (user_id : UserId) (ids : List RoomId) (q : RoomId) (r : Room)
    → IsConsistent s
    → BtreeMap.lookup q (leave_rooms s user_id ids).rooms ≡ some r
    → BtreeSet.contains user_id r.participants ≡ true
    → (BtreeMap.lookup q s.rooms ≡ some r) × (BtreeSet.contains q ids ≡ false)
unfolding leave_rooms BtreeSet.contains
leave_rooms-others s user_id [] q r c e here = (e, refl)
leave_rooms-others s user_id (k ∷ ids) q r c e here =
    let ih =
      leave_rooms-others (leave_room s user_id k) user_id ids q r
        (leave_room-IsConsistent s user_id k c) e here in
    let o = leave_room-others s user_id k q r c ih.0 here in (o.0, ground (arith, ih.1, o.1))

-- A disconnect keeps the rooms consistent.
pub disconnect_user-IsConsistent :
    (s : ControlState) (user_id : UserId)
    → IsConsistent s
    → IsConsistent (disconnect_user s user_id)
unfolding disconnect_user
disconnect_user-IsConsistent s user_id c = record {
  rooms_consistent =
      (leave_rooms-IsConsistent s user_id (affected_rooms s user_id) c).rooms_consistent;
}

-- After `disconnect_user` the user takes part in no room.
disconnect_user-participants :
    (s : ControlState) (user_id : UserId) (q : RoomId) (r : Room)
    → IsConsistent s
    → BtreeMap.lookup q (disconnect_user s user_id).rooms ≡ some r
    → BtreeSet.contains user_id r.participants ≡ false
unfolding disconnect_user affected_rooms
disconnect_user-participants s user_id q r c e =
    elim (Bool-cases (BtreeSet.contains user_id r.participants)) [
      | inl here ↦
          let o = leave_rooms-others s user_id (affected_rooms s user_id) q r c e here in
          let k =
            BtreeMap.contains-keys_where 0 q
              (λ _ x.
                BtreeSet.contains user_id x.participants
                || publishes_any user_id (BtreeMap.values x.published_streams))
              s.rooms c.rooms_consistent.ordered in
          ground (arith, o, k, here)
      | inr gone ↦ gone
    ]

-- The reports that are left when those of a user are taken out.
viewer_stats_without-gone :
    (user_id : UserId) (m : Map (Map ViewerStatsReport)) (k : StreamId)
    (reports : Map ViewerStatsReport)
    → BtreeMap.lookup k (viewer_stats_without user_id m) ≡ some reports
    → BtreeMap.lookup user_id reports ≡ none
unfolding viewer_stats_without BtreeMap.lookup BtreeMap.retain BtreeMap.map_values
viewer_stats_without-gone user_id [] k reports e = ground (arith, e)
viewer_stats_without-gone user_id ((j, v) ∷ m) k reports e =
    ground (
      arith,
      viewer_stats_without-gone user_id m k reports,
      BtreeMap.lookup-remove user_id user_id v,
    )

-- What is left of a user in a room: nothing.
pub record IsAbsent (user_id : UserId) (r : Room) : Type 0 where
  pub not_inside : BtreeSet.contains user_id r.participants ≡ false
  pub not_publishing :
      (k : StreamId) (stream : PublishedStream)
      → BtreeMap.lookup k r.published_streams ≡ some stream
      → stream.publisher_id ≢ user_id
  pub not_subscribed :
      (k : StreamId) (users : List UserId)
      → BtreeMap.lookup k r.subscriptions ≡ some users
      → BtreeSet.contains user_id users ≡ false

-- After `disconnect_user` on consistent rooms the user takes part in no room, publishes no stream
-- and subscribes to none, has no display name, and no report of the user is kept.
pub disconnect_user-gone :
    (s : ControlState) (user_id : UserId)
    → IsConsistent s
    → ((q : RoomId) (r : Room)
        → BtreeMap.lookup q (disconnect_user s user_id).rooms ≡ some r
        → IsAbsent user_id r)
      × (BtreeMap.lookup user_id (disconnect_user s user_id).display_names ≡ none)
      × ((k : StreamId) (reports : Map ViewerStatsReport)
          → BtreeMap.lookup k (disconnect_user s user_id).viewer_stats ≡ some reports
          → BtreeMap.lookup user_id reports ≡ none)
unfolding disconnect_user
disconnect_user-gone s user_id c =
    let c' = disconnect_user-IsConsistent s user_id c in
    let t = leave_rooms s user_id (affected_rooms s user_id) in
    (
      (λ q r e.
          let w = (c'.rooms_consistent.open_rooms q r e).well_formed in
          let out = disconnect_user-participants s user_id q r c e in
          record {
            not_inside = out;
            not_publishing =
                λ k stream h. let o = w.streams_owned k stream h in ground (arith, o.owned, out);
            not_subscribed = λ k users h.
                let i = w.subscriptions_inside k users h in ground (arith, i.inside user_id, out);
          }),
      ground (arith, BtreeMap.lookup-remove user_id user_id t.display_names),
      λ k reports e. viewer_stats_without-gone user_id t.viewer_stats k reports e,
    )
