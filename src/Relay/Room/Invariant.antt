-- ===== src/Relay/Room/Invariant.antt =====
-- What is true of every room of crates/relay-server/src/room.rs, and that its operations keep it.
use teamview.Prelude.{◌≡◌, inl, inr, refl, true, false, some, List, arith, Option-cases, Bool-cases}
use teamview.Prelude.BtreeMap
use teamview.Prelude.BtreeMap.{Map}
use teamview.Prelude.BtreeSet
use teamview.Prelude.Text.{Text}
use teamview.Protocol.Control.Names.{RoomId, UserId, StreamId}
use teamview.Relay.Room.{
  Room, PublishedStream, new_room, join, publish_stream, remove_published_stream, subscribers,
  subscribe, unsubscribe,
}

-- The subscribers of a stream: at least one, and participants of the room.
pub record AreSubscribers (participants : List UserId) (streams : Map PublishedStream)
    (stream_id : StreamId) (users : List UserId) : Type 0 where
  pub published : BtreeMap.contains_key stream_id streams ≡ true
  pub some_user : BtreeSet.is_empty users ≡ false
  pub ordered : BtreeSet.IsSorted users
  pub inside :
      (u : UserId) → BtreeSet.contains u users ≡ true → BtreeSet.contains u participants ≡ true

-- A stream stands under its own identifier, and a participant publishes it.
pub record IsOwned (participants : List UserId) (stream_id : StreamId) (stream : PublishedStream)
    : Type 0 where
  pub keyed : stream.stream_id ≡ stream_id
  pub owned : BtreeSet.contains stream.publisher_id participants ≡ true

pub record IsWellFormed (r : Room) : Type 0 where
  pub participants_ordered : BtreeSet.IsSorted r.participants
  pub streams_ordered : BtreeMap.IsSorted r.published_streams
  pub subscriptions_ordered : BtreeMap.IsSorted r.subscriptions
  pub streams_owned : BtreeMap.Forall (IsOwned r.participants) r.published_streams
  pub subscriptions_inside :
      BtreeMap.Forall (AreSubscribers r.participants r.published_streams) r.subscriptions

pub new_room-IsWellFormed : (id : RoomId) (name : Text) → IsWellFormed (new_room id name)
unfolding new_room BtreeMap.lookup
new_room-IsWellFormed id name = record {
  participants_ordered = tt;
  streams_ordered = tt;
  subscriptions_ordered = tt;
  streams_owned = λ k v e. ground arith;
  subscriptions_inside = λ k v e. ground arith;
}

pub join-IsWellFormed :
    (r : Room) (user_id : UserId) → IsWellFormed r → IsWellFormed (join r user_id).0
unfolding join
join-IsWellFormed r user_id w =
    let c = λ (u : UserId). BtreeSet.contains-insert u user_id r.participants in
    record {
      participants_ordered =
          BtreeSet.insert-SortedFrom 0 user_id r.participants (omega arith) w.participants_ordered;
      streams_ordered = w.streams_ordered;
      subscriptions_ordered = w.subscriptions_ordered;
      streams_owned = λ k v e.
          let o = w.streams_owned k v e in
          record { keyed = o.keyed; owned = ground (arith, c v.publisher_id, o.owned) };
      subscriptions_inside = λ k users e.
          let i = w.subscriptions_inside k users e in
          record {
            published = i.published;
            some_user = i.some_user;
            ordered = i.ordered;
            inside = λ u h. ground (arith, c u, i.inside u h);
          };
    }

-- A participant may publish.
pub publish_stream-IsWellFormed :
    (r : Room) (stream : PublishedStream)
    → BtreeSet.contains stream.publisher_id r.participants ≡ true
    → IsWellFormed r
    → IsWellFormed (publish_stream r stream)
unfolding publish_stream BtreeMap.contains_key
publish_stream-IsWellFormed r stream here w =
    let l =
      λ (k : StreamId). BtreeMap.lookup-insert k stream.stream_id stream r.published_streams in
    record {
      participants_ordered = w.participants_ordered;
      streams_ordered =
          BtreeMap.insert-SortedFrom 0 stream.stream_id stream r.published_streams (omega arith)
            w.streams_ordered;
      subscriptions_ordered = w.subscriptions_ordered;
      streams_owned =
          BtreeMap.Forall-insert (IsOwned r.participants) stream.stream_id stream
            r.published_streams (record { keyed = refl; owned = here }) w.streams_owned;
      subscriptions_inside = λ k users e.
          let i = w.subscriptions_inside k users e in
          record {
            published = ground (arith, l k, i.published);
            some_user = i.some_user;
            ordered = i.ordered;
            inside = i.inside;
          };
    }

pub remove_published_stream-IsWellFormed :
    (r : Room) (stream_id : StreamId)
    → IsWellFormed r
    → IsWellFormed (remove_published_stream r stream_id).0
unfolding remove_published_stream BtreeMap.contains_key
remove_published_stream-IsWellFormed r stream_id w =
    let streams = λ (k : StreamId). BtreeMap.lookup-remove k stream_id r.published_streams in
    let subs = λ (k : StreamId). BtreeMap.lookup-remove k stream_id r.subscriptions in
    record {
      participants_ordered = w.participants_ordered;
      streams_ordered =
          BtreeMap.remove-SortedFrom 0 stream_id r.published_streams w.streams_ordered;
      subscriptions_ordered =
          BtreeMap.remove-SortedFrom 0 stream_id r.subscriptions w.subscriptions_ordered;
      streams_owned =
          BtreeMap.Forall-remove (IsOwned r.participants) stream_id r.published_streams
            w.streams_owned;
      subscriptions_inside = λ k users e.
          let here : BtreeMap.lookup k r.subscriptions ≡ some users = ground (arith, subs k) in
          let i = w.subscriptions_inside k users here in
          record {
            published = ground (arith, streams k, subs k, i.published);
            some_user = i.some_user;
            ordered = i.ordered;
            inside = i.inside;
          };
    }

-- What `subscribers` gives is a part of the participants.
subscribers-inside :
    (r : Room) (stream_id : StreamId)
    → IsWellFormed r
    → BtreeSet.IsSorted (subscribers r stream_id)
      × ((u : UserId)
          → BtreeSet.contains u (subscribers r stream_id) ≡ true
          → BtreeSet.contains u r.participants ≡ true)
unfolding subscribers BtreeSet.contains
subscribers-inside r stream_id w = elim (Option-cases (BtreeMap.lookup stream_id r.subscriptions)) [
  | inl e ↦ rw (subscribers, e) (tt, λ u h. ground arith)
  | inr (users, e) ↦
      let i = w.subscriptions_inside stream_id users e in rw (subscribers, e) (i.ordered, i.inside)
]

-- A participant may subscribe to a stream that is published.
pub subscribe-IsWellFormed :
    (r : Room) (stream_id : StreamId) (user_id : UserId)
    → BtreeSet.contains user_id r.participants ≡ true
    → IsWellFormed r
    → IsWellFormed (subscribe r stream_id user_id).0
unfolding subscribe
subscribe-IsWellFormed r stream_id user_id here w =
    let users = BtreeSet.insert user_id (subscribers r stream_id) in
    let old = subscribers-inside r stream_id w in
    elim (Bool-cases (BtreeMap.contains_key stream_id r.published_streams)) [
      | inl p ↦ rw p (record {
        participants_ordered = w.participants_ordered;
        streams_ordered = w.streams_ordered;
        subscriptions_ordered =
            BtreeMap.insert-SortedFrom 0 stream_id users r.subscriptions (omega arith)
              w.subscriptions_ordered;
        streams_owned = w.streams_owned;
        subscriptions_inside =
            BtreeMap.Forall-insert (AreSubscribers r.participants r.published_streams) stream_id
              users r.subscriptions
              (record {
                published = p;
                some_user = BtreeSet.insert-is_empty user_id (subscribers r stream_id);
                ordered =
                    BtreeSet.insert-SortedFrom 0 user_id (subscribers r stream_id) (omega arith)
                      old.0;
                inside = λ u h.
                    ground (
                      arith,
                      BtreeSet.contains-insert u user_id (subscribers r stream_id),
                      old.1 u,
                    );
              })
              w.subscriptions_inside;
      })
      | inr p ↦ rw p w
    ]

-- The room with other subscriptions.
with_subscriptions-IsWellFormed :
    (r : Room) (subs : Map (List UserId))
    → BtreeMap.IsSorted subs
    → BtreeMap.Forall (AreSubscribers r.participants r.published_streams) subs
    → IsWellFormed r
    → IsWellFormed (record r { subscriptions = subs })
with_subscriptions-IsWellFormed r subs o f w = record {
  participants_ordered = w.participants_ordered;
  streams_ordered = w.streams_ordered;
  subscriptions_ordered = o;
  streams_owned = w.streams_owned;
  subscriptions_inside = f;
}

pub unsubscribe-IsWellFormed :
    (r : Room) (stream_id : StreamId) (user_id : UserId)
    → IsWellFormed r
    → IsWellFormed (unsubscribe r stream_id user_id)
unfolding unsubscribe
unsubscribe-IsWellFormed r stream_id user_id w =
    elim (Option-cases (BtreeMap.lookup stream_id r.subscriptions)) [
      | inl e ↦ rw (unsubscribe, e) w
      | inr (users, e) ↦
          let i = w.subscriptions_inside stream_id users e in
          let rest = BtreeSet.remove user_id users in
          elim (Bool-cases (BtreeSet.is_empty rest)) [
            | inl z ↦
                rw (unsubscribe, e, z)
                  (with_subscriptions-IsWellFormed r _
                    (BtreeMap.remove-SortedFrom 0 stream_id r.subscriptions w.subscriptions_ordered)
                    (BtreeMap.Forall-remove _ stream_id r.subscriptions w.subscriptions_inside) w)
            | inr z ↦
                rw (unsubscribe, e, z)
                  (with_subscriptions-IsWellFormed r _
                    (BtreeMap.insert-SortedFrom 0 stream_id rest r.subscriptions (omega arith)
                      w.subscriptions_ordered)
                    (BtreeMap.Forall-insert _ stream_id rest r.subscriptions
                      (record {
                        published = i.published;
                        some_user = z;
                        ordered = BtreeSet.remove-SortedFrom 0 user_id users i.ordered;
                        inside = λ u h.
                            ground (arith, BtreeSet.contains-remove u user_id users, i.inside u);
                      })
                      w.subscriptions_inside)
                    w)
          ]
    ]
