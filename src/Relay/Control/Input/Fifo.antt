-- ===== src/Relay/Control/Input/Fifo.antt =====
-- The queues of remote input in crates/relay-server/src/control.rs: their length, their order, and
-- who may fill and empty them.
use teamview.Prelude.{
  ℕ, zero, suc, ◌+◌, ◌-◌, ◌≤◌, ◌<◌, min, ◌≡◌, refl, ap, List, [], ◌∷◌, ◌++◌, ◌==◌, length, take,
  drop, length-append, length-drop, if◌then◌else◌, arith, inl, inr, Option-cases,
}
use teamview.Prelude.BtreeMap
use teamview.Prelude.BtreeMap.{Map}
use teamview.Prelude.Words.{saturating_add, max_of}
use teamview.Protocol.Control.Names.{StreamId}
use teamview.Protocol.Control.Media.{RemoteInputEvent}
use teamview.Relay.Control.State.{ControlState}
use teamview.Relay.Control.Input.{
  max_remote_input_queue_events, make_room, take_events, keep_queue, next_batch, is_empty_queue,
}

drop_front :
    (n : ℕ) (e : RemoteInputEvent) (queue : List RemoteInputEvent)
    → 0 < n
    → drop n (e ∷ queue) ≡ drop (n - 1) queue
drop_front zero e queue h = absurd (omega arith)
drop_front (suc n) e queue h = ap (λ k. drop k queue) (omega arith)

-- `make_room` drops from the front what is above 255 events, and counts it.
pub make_room-drop :
    (queue : List RemoteInputEvent) (dropped : ℕ)
    → dropped ≤ max_of 16
    → make_room queue dropped
      ≡ (drop (length queue - 255) queue, min (dropped + (length queue - 255)) (max_of 16))
unfolding make_room
make_room-drop [] dropped h = ground arith
make_room-drop (e ∷ queue) dropped h =
    let front = drop_front (length (e ∷ queue) - 255) e queue in
    let ih = make_room-drop queue (saturating_add 16 dropped 1) (omega arith) in
    let whole : length (e ∷ queue) - 255 ≡ 0
        → drop (length (e ∷ queue) - 255) (e ∷ queue) ≡ e ∷ queue =
      λ z. ap (λ k. drop k (e ∷ queue)) z in
    ground (arith, front, ih, whole)

take_events-split :
    (n : ℕ) (queue : List RemoteInputEvent) → take_events n queue ≡ (take n queue, drop n queue)
unfolding take_events
take_events-split zero queue = refl
take_events-split (suc n) [] = refl
take_events-split (suc n) (e ∷ queue) = rw (take_events-split n queue)

drop_nil : (n : ℕ) → drop {A = RemoteInputEvent} n [] ≡ []
drop_nil zero = refl
drop_nil (suc n) = refl

take_nil : (n : ℕ) → take {A = RemoteInputEvent} n [] ≡ []
take_nil zero = refl
take_nil (suc n) = refl

-- The queue of a stream: a stream without an entry has no events.
abbrev pub queue_of : ControlState → StreamId → List RemoteInputEvent
queue_of s stream_id = BtreeMap.get_or stream_id [] s.pending_remote_input

keep_queue-lookup :
    (s : ControlState) (stream_id : StreamId) (rest : List RemoteInputEvent) (q : StreamId)
    → queue_of (keep_queue s stream_id rest) q ≡ (if stream_id == q then rest else queue_of s q)
unfolding keep_queue is_empty_queue BtreeMap.get_or
keep_queue-lookup s stream_id [] q =
    ground (arith, BtreeMap.lookup-remove q stream_id s.pending_remote_input)
keep_queue-lookup s stream_id (e ∷ rest) q =
    ground (arith, BtreeMap.lookup-insert q stream_id (e ∷ rest) s.pending_remote_input)

pub next_batch-queues :
    (s : ControlState) (stream_id : StreamId) (n : ℕ) (q : StreamId)
    → ((next_batch s stream_id n).1 ≡ take n (queue_of s stream_id))
      × (queue_of (next_batch s stream_id n).0 q
          ≡ (if stream_id == q then drop n (queue_of s stream_id) else queue_of s q))
unfolding next_batch BtreeMap.get_or
next_batch-queues s stream_id n q =
    elim (Option-cases (BtreeMap.lookup stream_id s.pending_remote_input)) [
      | inl e ↦ ground (arith, e, drop_nil n, take_nil n)
      | inr (queue, e) ↦
          ground
            (arith, e, take_events-split n queue, keep_queue-lookup s stream_id (drop n queue) q)
    ]

-- No queue is longer than 256 events.
abbrev pub AreQueuesBounded : ControlState → Type 0
AreQueuesBounded s = (q : StreamId) → length (queue_of s q) ≤ max_remote_input_queue_events

-- The events of a stream after one more: the oldest make room.
abbrev pub with_event : RemoteInputEvent → List RemoteInputEvent → List RemoteInputEvent
with_event e queue = drop (length queue - 255) queue ++ (e ∷ [])

pub length-with_event :
    (e : RemoteInputEvent) (queue : List RemoteInputEvent) → length (with_event e queue) ≤ 256
length-with_event e queue = omega (
  arith,
  length-append (drop (length queue - 255) queue) (e ∷ []),
  length-drop (length queue - 255) queue,
)
