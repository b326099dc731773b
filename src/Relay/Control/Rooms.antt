-- ===== src/Relay/Control/Rooms.antt =====
-- What is true of the rooms of crates/relay-server/src/control.rs whatever messages came.
pub mod Targeted
pub mod Steps
pub mod Streams
pub mod Leaving
pub mod Disconnect
pub mod Messages
pub mod History
pub mod Reported
use teamview.Prelude.{
  ℕ, suc, ◌+◌, ◌≤◌, ◌<◌, ◌≡◌, refl, sym, ◌∙◌, subst, ap, Bool, true, false, not, ◌&&◌, Option, none,
  some, List, [], ◌∷◌, ◌==◌, ltb, length, if◌then◌else◌, arith, Option-cases, Bool-cases, inl, inr,
}
use teamview.Prelude.BtreeMap
use teamview.Prelude.BtreeMap.{Map}
use teamview.Prelude.BtreeSet
use teamview.Protocol.Control.Names.{RoomId, UserId, StreamId}
use teamview.Relay.Config.{ControlLimits}
use teamview.Relay.Room.{Room, PublishedStream, is_empty}
use teamview.Relay.Room.Invariant.{IsWellFormed, IsOwned}
use teamview.Relay.Control.State.{ControlState}
use teamview.Relay.Control.Rooms.Targeted.{AreTargeted}

-- A room stands under its own identifier, has a participant, and stays within the limits.
pub record IsOpenRoom (limits : ControlLimits) (room_id : RoomId) (r : Room) : Type 0 where
  pub keyed : r.id ≡ room_id
  pub well_formed : IsWellFormed r
  pub someone : BtreeSet.is_empty r.participants ≡ false
  pub participant_limit : length r.participants ≤ limits.max_participants_per_room
  pub stream_limit : length r.published_streams ≤ limits.max_streams_per_room
  pub targeted : AreTargeted r.published_streams

pub record AreConsistent (limits : ControlLimits) (rooms : Map Room) : Type 0 where
  pub room_for_one : 1 ≤ limits.max_participants_per_room
  pub ordered : BtreeMap.IsSorted rooms
  pub room_limit : length rooms ≤ limits.max_rooms
  pub open_rooms : BtreeMap.Forall (IsOpenRoom limits) rooms

-- The rooms of a state, under its limits.
pub record IsConsistent (s : ControlState) : Type 0 where
  pub rooms_consistent : AreConsistent s.limits s.rooms

module _ (limits : ControlLimits) (rooms : Map Room) (room_id : RoomId) where
  -- A room that is there is replaced.
  pub replace-AreConsistent :
      (old r : Room)
      → BtreeMap.lookup room_id rooms ≡ some old
      → IsOpenRoom limits room_id r
      → AreConsistent limits rooms
      → AreConsistent limits (BtreeMap.insert room_id r rooms)
  unfolding BtreeMap.contains_key
  replace-AreConsistent old r here o w = record {
    room_for_one = w.room_for_one;
    ordered = BtreeMap.insert-SortedFrom 0 room_id r rooms (omega arith) w.ordered;
    room_limit =
        ground (arith, BtreeMap.length-insert 0 room_id r rooms w.ordered, here, w.room_limit);
    open_rooms = BtreeMap.Forall-insert (IsOpenRoom limits) room_id r rooms o w.open_rooms;
  }

  -- A new room is added while there is place for it.
  pub add-AreConsistent :
      (r : Room)
      → length rooms < limits.max_rooms
      → IsOpenRoom limits room_id r
      → AreConsistent limits rooms
      → AreConsistent limits (BtreeMap.insert room_id r rooms)
  add-AreConsistent r place o w = record {
    room_for_one = w.room_for_one;
    ordered = BtreeMap.insert-SortedFrom 0 room_id r rooms (omega arith) w.ordered;
    room_limit = ground (arith, BtreeMap.length-insert 0 room_id r rooms w.ordered, place);
    open_rooms = BtreeMap.Forall-insert (IsOpenRoom limits) room_id r rooms o w.open_rooms;
  }

  -- A room that is there is replaced and taken away.
  pub remove-AreConsistent :
      (old r : Room)
      → BtreeMap.lookup room_id rooms ≡ some old
      → AreConsistent limits rooms
      → AreConsistent limits (BtreeMap.remove room_id (BtreeMap.insert room_id r rooms))
  unfolding BtreeMap.contains_key
  remove-AreConsistent old r here w =
      let added = BtreeMap.insert room_id r rooms in
      let l = BtreeMap.length-insert 0 room_id r rooms w.ordered in
      let shorter = BtreeMap.length-remove-le room_id added in
      record {
        room_for_one = w.room_for_one;
        ordered =
            BtreeMap.remove-SortedFrom 0 room_id added
              (BtreeMap.insert-SortedFrom 0 room_id r rooms (omega arith) w.ordered);
        room_limit = ground (arith, l, shorter, here, w.room_limit);
        open_rooms = λ q v e.
            let old_room : BtreeMap.lookup q rooms ≡ some v = ground (
              arith,
              e,
              BtreeMap.lookup-remove q room_id added,
              BtreeMap.lookup-insert q room_id r rooms,
            ) in
            w.open_rooms q v old_room;
      }

no_owner :
    (users : List UserId) (streams : Map PublishedStream)
    → BtreeMap.Forall (IsOwned users) streams
    → BtreeSet.is_empty users ≡ true
    → (BtreeSet.is_empty users && BtreeMap.is_empty streams) ≡ true
unfolding BtreeSet.is_empty BtreeMap.is_empty BtreeMap.lookup BtreeSet.contains
no_owner [] [] f h = refl
no_owner (u ∷ us) streams f h = ground arith
no_owner [] ((k, v) ∷ streams) f h = let o = f k v (ground arith) in ground (arith, o.owned)

-- A well-formed room without participants has no streams either.
pub empty-streams :
    (r : Room) → IsWellFormed r → BtreeSet.is_empty r.participants ≡ true → is_empty r ≡ true
unfolding is_empty
empty-streams r w h = no_owner r.participants r.published_streams w.streams_owned h
