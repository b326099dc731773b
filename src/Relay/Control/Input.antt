-- ===== src/Relay/Control/Input.antt =====
-- crates/relay-server/src/control.rs: remote input events, queued for the publisher of a screen.
pub mod Fifo
pub mod Users
use teamview.Prelude.{
  ℕ, zero, suc, ◌+◌, ◌-◌, min, max, Bool, true, false, ◌&&◌, ◌||◌, Option, none, some, List, [],
  ◌∷◌, ◌++◌, ◌==◌, leb, length, take, drop, if◌then◌else◌,
}
use teamview.Prelude.BtreeMap
use teamview.Prelude.BtreeSet
use teamview.Prelude.Words.{max_of, saturating_add}
use teamview.Protocol.Control.Names.{RoomId, UserId, StreamId, is_screen}
use teamview.Protocol.Control.Media.{
  SendRemoteInput, PollRemoteInput, RemoteInputQueued, RemoteInputBatch, RemoteInputEvent,
  RemoteInputKind,
}
use teamview.Protocol.Control.Envelope.{ServerControl}
use teamview.Relay.Room.{Room, PublishedStream, is_subscriber}
use teamview.Relay.Session.{Session}
use teamview.Relay.Control.Names.{sanitize_remote_input_kind}
use teamview.Relay.Control.State.{
  ControlState, Check, passed, refused, ◌>>=◌, ◌>>◌, some_or, require, answer, refusal,
  unauthenticated, room_not_found, stream_not_found,
}

abbrev pub max_remote_input_queue_events : ℕ
max_remote_input_queue_events = 256

abbrev pub max_remote_input_batch_events : ℕ
max_remote_input_batch_events = 64

-- `while queue.len() >= MAX { queue.pop_front(); … }`: what is left, and how many were dropped.
unfoldable pub make_room : List RemoteInputEvent → ℕ → List RemoteInputEvent × ℕ
make_room [] dropped = ([], dropped)
make_room (e ∷ queue) dropped = elim (leb max_remote_input_queue_events (length (e ∷ queue))) [
  | true ↦ make_room queue (saturating_add 16 dropped 1)
  | false ↦ (e ∷ queue, dropped)
]

-- The loop that takes at most `n` events off the front: the events, and what is left.
unfoldable pub take_events :
    ℕ → List RemoteInputEvent → List RemoteInputEvent × List RemoteInputEvent
take_events zero queue = ([], queue)
take_events (suc n) [] = ([], [])
take_events (suc n) (e ∷ queue) = let (events, rest) = take_events n queue in (e ∷ events, rest)

unfoldable pub input_event : UserId → SendRemoteInput → RemoteInputKind → ℕ → RemoteInputEvent
input_event user_id input kind now = record {
  sender_user_id = user_id;
  sequence_number = input.sequence_number;
  event_time_micros = if input.event_time_micros == 0 then now else input.event_time_micros;
  kind = kind;
}

-- `now` is what `unix_time_micros` returns.
unfoldable pub send_remote_input :
    ControlState → Session → SendRemoteInput → ℕ → ControlState × ServerControl
unfolding is_screen
send_remote_input s session input now = answer s do
  user_id ← some_or session.user_id unauthenticated
  r ← some_or (BtreeMap.lookup input.room_id s.rooms) room_not_found
  require (BtreeSet.contains user_id r.participants)
      (refusal "not_in_room" "join room before sending remote input")
  stream ← some_or (BtreeMap.lookup input.stream_id r.published_streams) stream_not_found
  require (is_screen stream.media_kind)
      (refusal "media_kind_mismatch" "remote input can only target screen streams")
  require (is_subscriber r input.stream_id user_id)
      (refusal "not_subscribed" "subscribe to the screen stream before sending remote input")
  kind ←
      some_or (sanitize_remote_input_kind input.kind)
        (refusal "invalid_remote_input" "remote text input must not be empty")
  let (rest, dropped) = make_room (BtreeMap.get_or input.stream_id [] s.pending_remote_input) 0
  let queue = rest ++ (input_event user_id input kind now ∷ [])
  passed (
    record s {
      pending_remote_input = BtreeMap.insert input.stream_id queue s.pending_remote_input;
    },
    ServerControl.remote_input_queued (record {
      room_id = input.room_id;
      stream_id = input.stream_id;
      publisher_id = stream.publisher_id;
      queued_events = min (length queue) (max_of 16);
      dropped_events = dropped;
    }),
  )

unfoldable pub validate_remote_input_publisher :
    ControlState → Session → RoomId → StreamId → Check (Unit {0})
unfolding is_screen
validate_remote_input_publisher s session room_id stream_id = do
  user_id ← some_or session.user_id unauthenticated
  r ← some_or (BtreeMap.lookup room_id s.rooms) room_not_found
  stream ← some_or (BtreeMap.lookup stream_id r.published_streams) stream_not_found
  require (stream.publisher_id == user_id)
      (refusal "not_publisher" "only the stream publisher can poll remote input")
  require (is_screen stream.media_kind)
      (refusal "media_kind_mismatch" "remote input can only target screen streams")

unfoldable pub is_empty_queue : List RemoteInputEvent → Bool
is_empty_queue [] = true
is_empty_queue (e ∷ queue) = false

-- The state after the events are taken: a queue that is empty is removed.
unfoldable pub keep_queue : ControlState → StreamId → List RemoteInputEvent → ControlState
unfolding is_empty_queue
keep_queue s stream_id rest =
    if is_empty_queue rest
    then record s { pending_remote_input = BtreeMap.remove stream_id s.pending_remote_input }
    else record s { pending_remote_input = BtreeMap.insert stream_id rest s.pending_remote_input }

unfoldable pub batch_size : PollRemoteInput → ℕ
batch_size poll = min (max poll.max_events 1) max_remote_input_batch_events

-- The events of the next batch, and the state without them.
unfoldable pub next_batch : ControlState → StreamId → ℕ → ControlState × List RemoteInputEvent
next_batch s stream_id max_events = elim (BtreeMap.lookup stream_id s.pending_remote_input) [
  | none ↦ (s, [])
  | some queue ↦
      let (events, rest) = take_events max_events queue in (keep_queue s stream_id rest, events)
]

unfoldable pub poll_remote_input :
    ControlState → Session → PollRemoteInput → ControlState × ServerControl
unfolding batch_size
poll_remote_input s session poll = answer s do
  validate_remote_input_publisher s session poll.room_id poll.stream_id
  let (s', events) = next_batch s poll.stream_id (batch_size poll)
  passed (
    s',
    ServerControl.remote_input_batch
        (record { room_id = poll.room_id; stream_id = poll.stream_id; events = events }),
  )
