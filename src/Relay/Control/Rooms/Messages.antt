-- ===== src/Relay/Control/Rooms/Messages.antt =====
-- Every message that crates/relay-server/src/control.rs handles keeps the rooms consistent.
use Prim.Native.Nat.{ℕ, suc}
use teamview.Prelude.{◌≡◌, refl, [], ◌∷◌, length, arith, Option-cases, inl, inr}
use teamview.Prelude.BtreeMap
use teamview.Prelude.BtreeMap.{Map}
use teamview.Protocol.Control.Names.{RoomId, StreamId}
use teamview.Protocol.Control.Envelope.{ServerControl}
use teamview.Protocol.Control.Media.{PollPublisherFeedback, SetTargetBitrate, SetTargetFramerate}
use teamview.Relay.Config.{ControlLimits}
use teamview.Relay.Room.{Room, PublishedStream}
use teamview.Relay.Session.{Session}
use teamview.Relay.Control.State.{ControlState}
use teamview.Relay.Control.Checks.{answer-some_or, answer-require, answer-check}
use teamview.Relay.Control.Targets.{update_first, with_target, update_stream_target, stream_target}
use teamview.Relay.Control.Targets.Bounds.{with_target-IsTargeted}
use teamview.Relay.Control.Feedback.{
  adaptive_publisher_feedback, poll_publisher_feedback, set_target_bitrate, set_target_framerate,
  is_publisher_of, validate_publisher_control, degraded_target,
}
use teamview.Relay.Control.Streams.{register_keyframe_request}
use teamview.Relay.Control.Rooms.{IsOpenRoom, AreConsistent, IsConsistent}
use teamview.Relay.Control.Rooms.Streams.{restream-IsOpenRoom}

abbrev Keeps : ControlState × ServerControl → Type 0
Keeps o = IsConsistent o.0

-- A room of the updated map is as it was, or has the one stream replaced.
update_first-length :
    (k : StreamId) (f : PublishedStream → PublishedStream) (rooms : Map Room)
    → length (update_first k f rooms) ≡ length rooms
unfolding update_first
update_first-length k f [] = refl
update_first-length k f ((j, r) ∷ rooms) = ground (arith, update_first-length k f rooms)

update_first-SortedFrom :
    (lo : ℕ) (k : StreamId) (f : PublishedStream → PublishedStream) (rooms : Map Room)
    → BtreeMap.SortedFrom lo rooms
    → BtreeMap.SortedFrom lo (update_first k f rooms)
unfolding update_first
update_first-SortedFrom lo k f [] o = tt
update_first-SortedFrom lo k f ((j, r) ∷ rooms) o =
    ground (arith, update_first-SortedFrom (suc j) k f rooms)

update_first-open :
    (limits : ControlLimits) (lo : ℕ) (k : StreamId) (a b c d : ℕ) (rooms : Map Room)
    → BtreeMap.SortedFrom lo rooms
    → BtreeMap.Forall (IsOpenRoom limits) rooms
    → BtreeMap.Forall (IsOpenRoom limits) (update_first k (with_target a b c d) rooms)
unfolding update_first BtreeMap.lookup with_target
update_first-open limits lo k a b c d [] o all = all
update_first-open limits lo k a b c d ((j, r) ∷ rooms) o all =
    let tail = BtreeMap.Forall-tail (IsOpenRoom limits) lo j r rooms o all in
    let here = all j r (ground arith) in
    elim (Option-cases (BtreeMap.lookup k r.published_streams)) [
      | inl e ↦
          rw (update_first, e)
            (BtreeMap.Forall-cons (IsOpenRoom limits) j r _ here
              (update_first-open limits (suc j) k a b c d rooms o.1 tail))
      | inr (stream, e) ↦
          rw (update_first, e)
            (BtreeMap.Forall-cons (IsOpenRoom limits) j _ rooms
              (restream-IsOpenRoom limits j r k stream (with_target a b c d stream) e refl refl
                (with_target-IsTargeted a b c d stream) here)
              tail)
    ]

update_stream_target-IsConsistent :
    (s : ControlState) (k : StreamId) (a b c d : ℕ)
    → IsConsistent s
    → IsConsistent (update_stream_target s k a b c d)
unfolding update_stream_target
update_stream_target-IsConsistent s k a b c d h =
    let w = h.rooms_consistent in
    record {
      rooms_consistent = record {
        room_for_one = w.room_for_one;
        ordered = update_first-SortedFrom 0 k (with_target a b c d) s.rooms w.ordered;
        room_limit =
            ground (arith, update_first-length k (with_target a b c d) s.rooms, w.room_limit);
        open_rooms = update_first-open s.limits 0 k a b c d s.rooms w.ordered w.open_rooms;
      };
    }

-- The state with a keyframe request, or without one, has the same rooms.
adaptive_publisher_feedback-AreConsistent :
    (s : ControlState) (room_id : RoomId) (k : StreamId)
    → IsConsistent s
    → (let s' = (adaptive_publisher_feedback s room_id k).0 in AreConsistent s'.limits s'.rooms)
unfolding adaptive_publisher_feedback register_keyframe_request update_stream_target
adaptive_publisher_feedback-AreConsistent s room_id k c =
    let new = degraded_target (stream_target s k) in
    let u =
      (update_stream_target-IsConsistent s k new.bitrate_bps new.frames_per_second new.width
        new.height c).rooms_consistent in
    ground (arith, u, c.rooms_consistent)

pub poll_publisher_feedback-IsConsistent :
    (s : ControlState) (session : Session) (poll : PollPublisherFeedback)
    → IsConsistent s
    → IsConsistent (poll_publisher_feedback s session poll).0
unfolding poll_publisher_feedback
poll_publisher_feedback-IsConsistent s session poll c =
    answer-some_or s Keeps (λ e. c) session.user_id _ _
      λ user_id identified.
        answer-require s Keeps (λ e. c) (is_publisher_of s poll.stream_id user_id) _ _
          λ own. record {
            rooms_consistent =
                adaptive_publisher_feedback-AreConsistent s poll.room_id poll.stream_id c;
          }

pub set_target_bitrate-IsConsistent :
    (s : ControlState) (session : Session) (target : SetTargetBitrate)
    → IsConsistent s
    → IsConsistent (set_target_bitrate s session target).0
unfolding set_target_bitrate
set_target_bitrate-IsConsistent s session target c =
    answer-check s Keeps (λ e. c)
      (validate_publisher_control s session target.room_id target.stream_id) _
      λ u valid. update_stream_target-IsConsistent s target.stream_id _ _ _ _ c

pub set_target_framerate-IsConsistent :
    (s : ControlState) (session : Session) (target : SetTargetFramerate)
    → IsConsistent s
    → IsConsistent (set_target_framerate s session target).0
unfolding set_target_framerate
set_target_framerate-IsConsistent s session target c =
    answer-check s Keeps (λ e. c)
      (validate_publisher_control s session target.room_id target.stream_id) _
      λ u valid. update_stream_target-IsConsistent s target.stream_id _ _ _ _ c
