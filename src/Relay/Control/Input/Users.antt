-- ===== src/Relay/Control/Input/Users.antt =====
-- Who fills and empties the queues of remote input in crates/relay-server/src/control.rs.
use teamview.Prelude.{
  ℕ, min, max, ◌≡◌, refl, ap, true, some, List, ◌==◌, take, drop, length-drop, if◌then◌else◌, arith,
  inl, inr,
}
use teamview.Prelude.BtreeMap
use teamview.Prelude.BtreeMap.{Map}
use teamview.Protocol.Control.Names.{UserId, StreamId, is_screen}
use teamview.Protocol.Control.Media.{
  SendRemoteInput, PollRemoteInput, RemoteInputEvent, RemoteInputKind,
}
use teamview.Relay.Room.{Room, PublishedStream, is_subscriber}
use teamview.Prelude.BtreeSet
use teamview.Prelude.{◌⊎◌}
use teamview.Protocol.Control.Envelope.{ServerControl}
use teamview.Relay.Control.Checks.{answer-some_or, answer-require, answer-check}
use teamview.Relay.Control.Names.{sanitize_remote_input_kind}
use teamview.Relay.Session.{Session}
use teamview.Relay.Control.State.{ControlState, ◌>>=◌}
use teamview.Relay.Control.Input.{
  send_remote_input, poll_remote_input, validate_remote_input_publisher, batch_size, input_event,
}
use teamview.Relay.Control.Input.Fifo.{
  queue_of, AreQueuesBounded, with_event, length-with_event, make_room-drop, next_batch-queues,
}

-- Who may send input about a stream: a participant that subscribes to it, when it is a screen; and
-- the input that is left after cleaning.
pub record IsSender (s : ControlState) (session : Session) (input : SendRemoteInput)
    (user_id : UserId) (r : Room) (stream : PublishedStream) (kind : RemoteInputKind) : Type 0 where
  pub identified : session.user_id ≡ some user_id
  pub in_room : BtreeMap.lookup input.room_id s.rooms ≡ some r
  pub joined : BtreeSet.contains user_id r.participants ≡ true
  pub published : BtreeMap.lookup input.stream_id r.published_streams ≡ some stream
  pub screen : is_screen stream.media_kind ≡ true
  pub subscribed : is_subscriber r input.stream_id user_id ≡ true
  pub cleaned : sanitize_remote_input_kind input.kind ≡ some kind

-- Some user, room, stream and input are those of a sender.
abbrev pub CanSend : ControlState → Session → SendRemoteInput → Type 0
CanSend s session input =
    (user_id : UserId) × (r : Room) × (stream : PublishedStream) × (kind : RemoteInputKind)
    × IsSender s session input user_id r stream kind

-- A state that has only other queues of input.
abbrev pub with_queues : ControlState → Map (List RemoteInputEvent) → ControlState
with_queues s queues = record s { pending_remote_input = queues }

send-state :
    (s : ControlState) (session : Session) (input : SendRemoteInput) (now : ℕ) (user_id : UserId)
    (r : Room) (stream : PublishedStream) (kind : RemoteInputKind)
    → IsSender s session input user_id r stream kind
    → (send_remote_input s session input now).0
      ≡ with_queues s (
          BtreeMap.insert input.stream_id
            (with_event (input_event user_id input kind now) (queue_of s input.stream_id))
            s.pending_remote_input)
unfolding send_remote_input
send-state s session input now user_id r stream kind h = rw (
  h.identified,
  ◌>>=◌,
  h.in_room,
  h.joined,
  h.published,
  h.screen,
  h.subscribed,
  h.cleaned,
  make_room-drop (queue_of s input.stream_id) 0 (omega arith),
)

-- Input of a participant that subscribes to a screen, with text that is not empty after cleaning,
-- goes to the back of the screen's queue, from whose front the oldest events above 255 make room
-- for it; the other queues are as before.
pub send_remote_input-queues :
    (s : ControlState) (session : Session) (input : SendRemoteInput) (now : ℕ) (user_id : UserId)
    (r : Room) (stream : PublishedStream) (kind : RemoteInputKind)
    → IsSender s session input user_id r stream kind
    → (q : StreamId)
    → queue_of (send_remote_input s session input now).0 q ≡ (
        if input.stream_id == q
        then with_event (input_event user_id input kind now) (queue_of s q)
        else queue_of s q)
unfolding BtreeMap.get_or
send_remote_input-queues s session input now user_id r stream kind h q =
    let e = input_event user_id input kind now in
    ground (
      arith,
      send-state s session input now user_id r stream kind h,
      BtreeMap.lookup-insert q input.stream_id (with_event e (queue_of s input.stream_id))
          s.pending_remote_input,
    )

-- Input leaves the state as it was, unless it comes from a participant that subscribes to a screen
-- of the room and is not an empty text.
pub send_remote_input-refused :
    (s : ControlState) (session : Session) (input : SendRemoteInput) (now : ℕ)
    → CanSend s session input ⊎ ((send_remote_input s session input now).0 ≡ s)
unfolding send_remote_input
send_remote_input-refused s session input now =
    let same : ControlState × ServerControl → Type 0 = λ o. CanSend s session input ⊎ (o.0 ≡ s) in
    let no : (e : ServerControl) → same (s, e) = λ e. inr refl in
    answer-some_or s same no session.user_id _ _ λ user_id identified.
      answer-some_or s same no (BtreeMap.lookup input.room_id s.rooms) _ _ λ r in_room.
        answer-require s same no (BtreeSet.contains user_id r.participants) _ _ λ joined.
          answer-some_or s same no (BtreeMap.lookup input.stream_id r.published_streams) _ _
            λ stream published. answer-require s same no (is_screen stream.media_kind) _ _ λ screen.
              answer-require s same no (is_subscriber r input.stream_id user_id) _ _ λ subscribed.
                answer-some_or s same no (sanitize_remote_input_kind input.kind) _ _ λ kind cleaned.
                  inl (
                    user_id,
                    r,
                    stream,
                    kind,
                    record {
                      identified = identified;
                      in_room = in_room;
                      joined = joined;
                      published = published;
                      screen = screen;
                      subscribed = subscribed;
                      cleaned = cleaned;
                    },
                  )

-- The publisher of a screen, who may take the input about it.
pub record IsPublisher (s : ControlState) (session : Session) (poll : PollRemoteInput)
    (user_id : UserId) (r : Room) (stream : PublishedStream) : Type 0 where
  pub identified : session.user_id ≡ some user_id
  pub in_room : BtreeMap.lookup poll.room_id s.rooms ≡ some r
  pub published : BtreeMap.lookup poll.stream_id r.published_streams ≡ some stream
  pub own : (stream.publisher_id == user_id) ≡ true
  pub screen : is_screen stream.media_kind ≡ true

abbrev pub batch_of : PollRemoteInput → List RemoteInputEvent → ServerControl
batch_of poll events =
    ServerControl.remote_input_batch
      (record { room_id = poll.room_id; stream_id = poll.stream_id; events = events })

-- The publisher of a screen gets the oldest events of its queue in order, as many as it asks for
-- but at least 1 and at most 64 where there are so many, and they leave the queue; the other queues
-- are as before.
pub poll_remote_input-batch :
    (s : ControlState) (session : Session) (poll : PollRemoteInput) (user_id : UserId) (r : Room)
    (stream : PublishedStream)
    → IsPublisher s session poll user_id r stream
    → (q : StreamId)
    → (poll_remote_input s session poll).1
        ≡ batch_of poll (take (min (max poll.max_events 1) 64) (queue_of s poll.stream_id))
      × (queue_of (poll_remote_input s session poll).0 q ≡ (
          if poll.stream_id == q
          then drop (min (max poll.max_events 1) 64) (queue_of s poll.stream_id)
          else queue_of s q))
unfolding poll_remote_input validate_remote_input_publisher batch_size
poll_remote_input-batch s session poll user_id r stream h q =
    let n = min (max poll.max_events 1) 64 in
    let b = next_batch-queues s poll.stream_id n q in
    rw (h.identified, ◌>>=◌, h.in_room, h.published, h.own, h.screen) (ap (batch_of poll) b.0, b.1)

poll_remote_input-AreQueuesBounded :
    (s : ControlState) (session : Session) (poll : PollRemoteInput)
    → AreQueuesBounded s
    → AreQueuesBounded (poll_remote_input s session poll).0
unfolding poll_remote_input
poll_remote_input-AreQueuesBounded s session poll b =
    let n = batch_size poll in
    answer-check s (λ o. AreQueuesBounded o.0) (λ e. b)
      (validate_remote_input_publisher s session poll.room_id poll.stream_id) _
      λ u valid q.
        let t = next_batch-queues s poll.stream_id n q in
        let d = length-drop n (queue_of s poll.stream_id) in
        ground (arith, t, d, b q, b poll.stream_id)

-- If no queue of remote input is longer than 256 events, none is after a message that sends or
-- polls remote input.
pub remote_input-AreQueuesBounded :
    (s : ControlState) (session : Session) (input : SendRemoteInput) (poll : PollRemoteInput)
    (now : ℕ)
    → AreQueuesBounded s
    → AreQueuesBounded (send_remote_input s session input now).0
      × AreQueuesBounded (poll_remote_input s session poll).0
remote_input-AreQueuesBounded s session input poll now b = (
  elim (send_remote_input-refused s session input now) [
    | inl (user_id, r, stream, kind, h) ↦ λ q.
        let e = input_event user_id input kind now in
        let l = length-with_event e (queue_of s q) in
        ground
          (arith, send_remote_input-queues s session input now user_id r stream kind h q, l, b q)
    | inr e ↦ rw e b
  ],
  poll_remote_input-AreQueuesBounded s session poll b,
)
