-- ===== src/Relay/Room.antt =====
-- crates/relay-server/src/room.rs: one room's participants, published streams and subscriptions.
pub mod Invariant
use teamview.Prelude.{
  ℕ, Bool, true, false, not, ◌&&◌, Option, none, some, List, [], ◌==◌, length, if◌then◌else◌,
}
use teamview.Prelude.BtreeMap
use teamview.Prelude.BtreeMap.{Map}
use teamview.Prelude.BtreeSet
use teamview.Prelude.Text.{Text}
use teamview.Prelude.Words.{cast}
use teamview.Protocol.Codec.{CodecId}
use teamview.Protocol.Control.Names.{RoomId, UserId, StreamId, MediaKind}
use teamview.Protocol.Control.Media.{StreamConfig}

pub record PublishedStream : Type 0 where
  pub stream_id : StreamId
  pub publisher_id : UserId
  pub codec : CodecId
  pub media_kind : MediaKind
  pub config : Option StreamConfig
  pub target_bitrate_bps : ℕ
  pub target_frames_per_second : ℕ
  pub target_width : ℕ
  pub target_height : ℕ

pub record Room : Type 0 where
  pub id : RoomId
  pub name : Text
  pub participants : List UserId
  pub published_streams : Map PublishedStream
  pub subscriptions : Map (List UserId)

unfoldable pub new_room : RoomId → Text → Room
new_room id name = record {
  id = id;
  name = name;
  participants = [];
  published_streams = [];
  subscriptions = [];
}

-- The room after `join`, and the number of participants that it returns.
unfoldable pub join : Room → UserId → Room × ℕ
join r user_id =
    let participants = BtreeSet.insert user_id r.participants in
    (record r { participants = participants }, cast 32 (length participants))

unfoldable pub leave : Room → UserId → Room
leave r user_id = record r {
  participants = BtreeSet.remove user_id r.participants;
  subscriptions =
      BtreeMap.retain (λ _ subscribers. not (BtreeSet.is_empty subscribers))
        (BtreeMap.map_values (BtreeSet.remove user_id) r.subscriptions);
}

unfoldable pub publish_stream : Room → PublishedStream → Room
publish_stream r stream = record r {
  published_streams = BtreeMap.insert stream.stream_id stream r.published_streams;
}

unfoldable pub streams_published_by : Room → UserId → List StreamId
streams_published_by r user_id =
    BtreeMap.keys_where (λ _ stream. stream.publisher_id == user_id) r.published_streams

-- The room without the stream, and the stream if it was there.
unfoldable pub remove_published_stream : Room → StreamId → Room × Option PublishedStream
remove_published_stream r stream_id = (
  record r {
    published_streams = BtreeMap.remove stream_id r.published_streams;
    subscriptions = BtreeMap.remove stream_id r.subscriptions;
  },
  BtreeMap.lookup stream_id r.published_streams,
)

-- `subscriptions.get(&stream_id)`, with the empty set for a stream that has none.
unfoldable pub subscribers : Room → StreamId → List UserId
subscribers r stream_id = elim (BtreeMap.lookup stream_id r.subscriptions) [
  | some users ↦ users
  | none ↦ []
]

-- `subscriptions.get(&stream_id).is_some_and(|subscribers| subscribers.contains(&user_id))`
unfoldable pub is_subscriber : Room → StreamId → UserId → Bool
is_subscriber r stream_id user_id = elim (BtreeMap.lookup stream_id r.subscriptions) [
  | some users ↦ BtreeSet.contains user_id users
  | none ↦ false
]

unfoldable pub subscribe : Room → StreamId → UserId → Room × Bool
unfolding subscribers
subscribe r stream_id user_id =
    if BtreeMap.contains_key stream_id r.published_streams
    then (
      record r {
        subscriptions =
            BtreeMap.insert stream_id (BtreeSet.insert user_id (subscribers r stream_id))
              r.subscriptions;
      },
      true,
    )
    else (r, false)

unfoldable pub unsubscribe : Room → StreamId → UserId → Room
unsubscribe r stream_id user_id = elim (BtreeMap.lookup stream_id r.subscriptions) [
  | none ↦ r
  | some users ↦
      let rest = BtreeSet.remove user_id users in
      if BtreeSet.is_empty rest
      then record r { subscriptions = BtreeMap.remove stream_id r.subscriptions }
      else record r { subscriptions = BtreeMap.insert stream_id rest r.subscriptions }
]

unfoldable pub is_empty : Room → Bool
is_empty r = BtreeSet.is_empty r.participants && BtreeMap.is_empty r.published_streams
