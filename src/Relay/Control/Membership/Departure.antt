-- ===== src/Relay/Control/Membership/Departure.antt =====
-- A room that a user leaves, in `leave_room` of crates/relay-server/src/control.rs.
use teamview.Prelude.{
  length, ◌≤◌, ℕ, ◌≡◌, ◌≢◌, inl, inr, refl, sym, subst, false, not, none, some, List, [], ◌∷◌, ◌==◌,
  if◌then◌else◌, arith, Option-cases,
}
use teamview.Prelude.BtreeMap
use teamview.Prelude.BtreeMap.{Map}
use teamview.Prelude.BtreeSet
use teamview.Protocol.Control.Names.{UserId, StreamId}
use teamview.Relay.Room.{
  Room, PublishedStream, leave, streams_published_by, remove_published_stream,
}
use teamview.Relay.Room.Invariant.{IsWellFormed}
use teamview.Relay.Control.Membership.{remove_published_streams, without_user}

-- The map without the keys of a list.
abbrev pub without {ℓ} : {V : Type ℓ} → List ℕ → Map V → Map V
without [] m = m
without (k ∷ ks) m = without ks (BtreeMap.remove k m)

lookup-without {ℓ} :
    {V : Type ℓ} (q : ℕ) (ks : List ℕ) (m : Map V)
    → BtreeMap.lookup q (without ks m)
      ≡ (if BtreeSet.contains q ks then none else BtreeMap.lookup q m)
unfolding BtreeSet.contains
lookup-without q [] m = refl
lookup-without q (k ∷ ks) m =
    ground (arith, lookup-without q ks (BtreeMap.remove k m), BtreeMap.lookup-remove q k m)

without-IsSorted {ℓ} :
    {V : Type ℓ} (ks : List ℕ) (m : Map V) → BtreeMap.IsSorted m → BtreeMap.IsSorted (without ks m)
without-IsSorted [] m o = o
without-IsSorted (k ∷ ks) m o =
    without-IsSorted ks (BtreeMap.remove k m) (BtreeMap.remove-SortedFrom 0 k m o)

remove_published_streams-fields :
    (r : Room) (ids : List StreamId)
    → remove_published_streams r ids ≡ record r {
      published_streams = without ids r.published_streams;
      subscriptions = without ids r.subscriptions;
    }
unfolding remove_published_streams remove_published_stream
remove_published_streams-fields r [] = refl
remove_published_streams-fields r (k ∷ ids) =
    remove_published_streams-fields (remove_published_stream r k).0 ids

-- The streams that are left: those of the other users.
lookup-without_user :
    (r : Room) (user_id : UserId) (k : StreamId)
    → IsWellFormed r
    → BtreeMap.lookup k (without_user r user_id).published_streams
      ≡ elim (BtreeMap.lookup k r.published_streams) [
        | some v ↦ if v.publisher_id == user_id then none else some v
        | none ↦ none
      ]
unfolding without_user leave streams_published_by
lookup-without_user r user_id k w =
    let ids = streams_published_by r user_id in
    let c =
      BtreeMap.contains-keys_where 0 k (λ _ v. v.publisher_id == user_id) r.published_streams
        w.streams_ordered in
    rw (remove_published_streams-fields (leave r user_id) ids)
      (ground (arith, lookup-without k ids r.published_streams, c))

pub without_user-streams :
    (r : Room) (user_id : UserId) (k : StreamId) (v : PublishedStream)
    → IsWellFormed r
    → BtreeMap.lookup k (without_user r user_id).published_streams ≡ some v
    → BtreeMap.lookup k r.published_streams ≡ some v
without_user-streams r user_id k v w e = ground (arith, e, lookup-without_user r user_id k w)

-- The subscriptions that are left: each without the user, if another subscriber remains and the
-- stream is left.
lookup-subscriptions :
    (r : Room) (user_id : UserId) (k : StreamId) (users : List UserId)
    → IsWellFormed r
    → BtreeMap.lookup k (without_user r user_id).subscriptions ≡ some users
    → (BtreeSet.contains k (streams_published_by r user_id) ≡ false)
      × (BtreeSet.is_empty users ≡ false)
      × (old : List UserId) × (BtreeMap.lookup k r.subscriptions ≡ some old)
      × (users ≡ BtreeSet.remove user_id old)
unfolding without_user leave
lookup-subscriptions r user_id k users w e =
    let ids = streams_published_by r user_id in
    let mapped = BtreeMap.map_values (BtreeSet.remove user_id) r.subscriptions in
    let o =
      BtreeMap.map_values-SortedFrom 0 (BtreeSet.remove user_id) r.subscriptions
        w.subscriptions_ordered in
    let kept = BtreeMap.lookup-retain 0 k (λ _ us. not (BtreeSet.is_empty us)) mapped o in
    let m = BtreeMap.lookup-map_values k (BtreeSet.remove user_id) r.subscriptions in
    let f = remove_published_streams-fields (leave r user_id) ids in
    let l = lookup-without k ids (leave r user_id).subscriptions in
    elim (Option-cases (BtreeMap.lookup k r.subscriptions)) [
      | inl z ↦ ground (arith, e, z, f, l, m, kept)
      | inr (old, z) ↦ (
        ground (arith, e, z, f, l, m, kept),
        ground (arith, e, z, f, l, m, kept),
        old,
        z,
        ground (arith, e, z, f, l, m, kept),
      )
    ]

without_user-participants :
    (r : Room) (user_id : UserId)
    → (without_user r user_id).participants ≡ BtreeSet.remove user_id r.participants
unfolding without_user leave streams_published_by
without_user-participants r user_id =
    rw (remove_published_streams-fields (leave r user_id) (streams_published_by r user_id)) refl

without_user-IsSorted :
    (r : Room) (user_id : UserId)
    → IsWellFormed r
    → BtreeMap.IsSorted (without_user r user_id).published_streams
      × BtreeMap.IsSorted (without_user r user_id).subscriptions
unfolding without_user leave streams_published_by
without_user-IsSorted r user_id w =
    let ids = streams_published_by r user_id in
    let o =
      BtreeMap.map_values-SortedFrom 0 (BtreeSet.remove user_id) r.subscriptions
        w.subscriptions_ordered in
    let kept = BtreeMap.retain-SortedFrom 0 (λ _ us. not (BtreeSet.is_empty us)) _ o in
    rw (remove_published_streams-fields (leave r user_id) ids)
      (without-IsSorted ids r.published_streams w.streams_ordered, without-IsSorted ids _ kept)

-- A room that a user leaves is still well-formed: the user's streams go, with every subscription
-- to them, and so do the user's own subscriptions.
pub without_user-IsWellFormed :
    (r : Room) (user_id : UserId) → IsWellFormed r → IsWellFormed (without_user r user_id)
unfolding BtreeMap.contains_key streams_published_by
without_user-IsWellFormed r user_id w =
    let here = without_user-participants r user_id in
    let sorted = without_user-IsSorted r user_id w in
    let streams = λ (k : StreamId). lookup-without_user r user_id k w in
    let member = λ (u : UserId). BtreeSet.contains-remove u user_id r.participants in
    let ids = λ (k : StreamId).
      BtreeMap.contains-keys_where 0 k (λ _ v. v.publisher_id == user_id) r.published_streams
        w.streams_ordered in
    record {
      participants_ordered =
          subst BtreeSet.IsSorted (sym here)
            (BtreeSet.remove-SortedFrom 0 user_id r.participants w.participants_ordered);
      streams_ordered = sorted.0;
      subscriptions_ordered = sorted.1;
      streams_owned = λ k v e.
          let old : BtreeMap.lookup k r.published_streams ≡ some v = ground (arith, e, streams k) in
          let other : (v.publisher_id == user_id) ≡ false = ground (arith, e, streams k, old) in
          let o = w.streams_owned k v old in
          record {
            keyed = o.keyed;
            owned = ground (arith, here, member v.publisher_id, o.owned, other);
          };
      subscriptions_inside = λ k users e.
          let (kept, some_user, old, found, shrunk) = lookup-subscriptions r user_id k users w e in
          let i = w.subscriptions_inside k old found in
          let removed = λ (u : UserId). BtreeSet.contains-remove u user_id old in
          record {
            published = ground (arith, streams k, ids k, kept, i.published);
            some_user = some_user;
            ordered =
                subst BtreeSet.IsSorted (sym shrunk)
                  (BtreeSet.remove-SortedFrom 0 user_id old i.ordered);
            inside = λ u h. ground (arith, here, member u, removed u, shrunk, h, i.inside u);
          };
    }

-- Nothing of the user is left in the room.
pub without_user-gone :
    (r : Room) (user_id : UserId)
    → IsWellFormed r
    → (BtreeSet.contains user_id (without_user r user_id).participants ≡ false)
      × ((k : StreamId) (v : PublishedStream)
          → BtreeMap.lookup k (without_user r user_id).published_streams ≡ some v
          → v.publisher_id ≢ user_id)
      × ((k : StreamId) (users : List UserId)
          → BtreeMap.lookup k (without_user r user_id).subscriptions ≡ some users
          → BtreeSet.contains user_id users ≡ false)
without_user-gone r user_id w = (
  ground (
    arith,
    without_user-participants r user_id,
    BtreeSet.contains-remove user_id user_id r.participants,
  ),
  (λ k v e. ground (arith, lookup-without_user r user_id k w)),
  λ k users e.
      let (kept, some_user, old, found, shrunk) = lookup-subscriptions r user_id k users w e in
      ground (arith, shrunk, BtreeSet.contains-remove user_id user_id old),
)

without-length {ℓ} : {V : Type ℓ} (ks : List ℕ) (m : Map V) → length (without ks m) ≤ length m
without-length [] m = omega arith
without-length (k ∷ ks) m =
    omega (arith, without-length ks (BtreeMap.remove k m), BtreeMap.length-remove-le k m)

-- The room keeps its identifier, and becomes no larger.
pub without_user-sizes :
    (r : Room) (user_id : UserId)
    → ((without_user r user_id).id ≡ r.id)
      × (length (without_user r user_id).participants ≤ length r.participants)
      × (length (without_user r user_id).published_streams ≤ length r.published_streams)
unfolding without_user leave streams_published_by
without_user-sizes r user_id =
    let ids = streams_published_by r user_id in
    rw (remove_published_streams-fields (leave r user_id) ids) (
      refl,
      BtreeSet.length-remove-le user_id r.participants,
      without-length ids r.published_streams,
    )
