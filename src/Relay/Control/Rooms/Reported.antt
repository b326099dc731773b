-- ===== src/Relay/Control/Rooms/Reported.antt =====
-- The target that crates/relay-server/src/control.rs reads for a stream, in any history of the relay.
use teamview.Prelude.{
  ℕ, suc, ◌≡◌, Option, none, some, [], ◌∷◌, arith, find_map, Option-cases, inl, inr, refl,
}
use teamview.Prelude.BtreeMap
use teamview.Prelude.BtreeMap.{Map}
use teamview.Protocol.Control.Names.{StreamId}
use teamview.Relay.Config.{ControlLimits}
use teamview.Relay.Room.{Room, PublishedStream}
use teamview.Relay.Control.State.{ControlState, published_stream}
use teamview.Relay.Control.Targets.{stream_target}
use teamview.Relay.Control.Targets.Bounds.{IsAllowed, IsTargeted}
use teamview.Relay.Control.Rooms.{IsOpenRoom}
use teamview.Relay.Control.Rooms.History.{Reachable, reachable-IsConsistent}

-- The first room that publishes the stream is one of the rooms.
found_stream-IsTargeted :
    (limits : ControlLimits) (lo : ℕ) (k : StreamId) (rooms : Map Room) (stream : PublishedStream)
    → BtreeMap.SortedFrom lo rooms
    → BtreeMap.Forall (IsOpenRoom limits) rooms
    → find_map (λ r. BtreeMap.lookup k r.published_streams) (BtreeMap.values rooms) ≡ some stream
    → IsTargeted stream
unfolding BtreeMap.values BtreeMap.lookup
found_stream-IsTargeted limits lo k [] stream o all e = ground (arith, e)
found_stream-IsTargeted limits lo k ((j, r) ∷ rooms) stream o all e =
    let rest =
      found_stream-IsTargeted limits (suc j) k rooms stream o.1
        (BtreeMap.Forall-tail (IsOpenRoom limits) lo j r rooms o all) in
    let here = (all j r (ground arith)).targeted k stream in
    elim (Option-cases (BtreeMap.lookup k r.published_streams)) [
      | inl z ↦ rest (ground (arith, e, z))
      | inr (found, z) ↦ here (ground (arith, e, z))
    ]

published_stream-IsTargeted :
    (s : ControlState) (k : StreamId) (stream : PublishedStream)
    → Reachable s
    → published_stream s k ≡ some stream
    → IsTargeted stream
unfolding published_stream
published_stream-IsTargeted s k stream h e =
    let w = (reachable-IsConsistent s h).rooms_consistent in
    found_stream-IsTargeted s.limits 0 k s.rooms stream w.ordered w.open_rooms e

-- The target of a stream that nobody publishes.
unpublished-IsAllowed :
    IsAllowed (record { bitrate_bps = 4000000; frames_per_second = 30; width = 0; height = 0 })
unpublished-IsAllowed = record {
  bitrate_low = omega arith;
  bitrate_high = omega arith;
  frames_low = omega arith;
  frames_high = omega arith;
  resolution = record { picture = inl (refl, refl) };
}

-- The stream, if there is one, has an allowed target and a configuration that agrees with it.
abbrev pub IsTargetedIfAny : Option PublishedStream → Type 0
IsTargetedIfAny none = Unit
IsTargetedIfAny (some stream) = IsTargeted stream

-- In every state that the relay reaches from a start, by messages, disconnects and forwarded
-- packets, the target that it reads for any stream has a bitrate from 16000 to 16000000, a frame
-- rate from 5 to 120, and a resolution from 320 by 180 to 7680 by 4320 or none; and where the
-- stream is published with a configuration, that has the target's frame rate and resolution.
pub reachable-IsTargeted :
    (s : ControlState) (k : StreamId)
    → Reachable s
    → IsAllowed (stream_target s k) × IsTargetedIfAny (published_stream s k)
unfolding stream_target
reachable-IsTargeted s k h = elim (Option-cases (published_stream s k)) [
  | inl nothing ↦ rw (stream_target, nothing) (unpublished-IsAllowed, tt)
  | inr (stream, found) ↦
      let t = published_stream-IsTargeted s k stream h found in
      rw (stream_target, found) (t.allowed, t)
]
