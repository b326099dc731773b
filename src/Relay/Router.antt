-- ===== src/Relay/Router.antt =====
-- crates/relay-server/src/router.rs: a bounded queue for each viewer, and the fanout of one stream.
pub mod Queue
pub mod Fanout
pub mod Refinement
use teamview.Prelude.{
  ℕ, ◌+◌, ◌-◌, Bool, true, false, Option, none, some, List, [], ◌∷◌, ◌++◌, ltb, length,
  if◌then◌else◌,
}
use teamview.Prelude.BtreeMap
use teamview.Prelude.BtreeMap.{Map}
use teamview.Prelude.Words.{saturating_add, saturating_sub, cast}
use teamview.Protocol.Control.Names.{UserId, StreamId}
use teamview.Protocol.Packet.{MediaPacket, contains_flag, end_of_frame}
use teamview.Protocol.Stats.{QueueStats, is_over_budget}

pub data EnqueueDecision : Type 0 where
  enqueued drop_for_viewer : EnqueueDecision

unfoldable pub decide_enqueue : QueueStats → ℕ → EnqueueDecision
decide_enqueue queue queue_budget_ms =
    if is_over_budget queue queue_budget_ms
    then EnqueueDecision.drop_for_viewer
    else EnqueueDecision.enqueued

pub record QueuedPacket : Type 0 where
  pub packet : MediaPacket
  pub media_duration_ms : ℕ

pub record ViewerQueue : Type 0 where
  pub viewer_id : UserId
  pub queued_packets : List QueuedPacket
  pub queued_media_ms : ℕ
  pub queue_budget_ms : ℕ
  pub received_packets : ℕ
  pub dropped_packets : ℕ
  pub dropped_frames : ℕ

unfoldable pub new_queue : UserId → ℕ → ViewerQueue
new_queue viewer_id queue_budget_ms = record {
  viewer_id = viewer_id;
  queued_packets = [];
  queued_media_ms = 0;
  queue_budget_ms = queue_budget_ms;
  received_packets = 0;
  dropped_packets = 0;
  dropped_frames = 0;
}

unfoldable pub enqueue : ViewerQueue → MediaPacket → ℕ → ViewerQueue × EnqueueDecision
enqueue q packet media_duration_ms =
    if ltb q.queue_budget_ms (saturating_add 16 q.queued_media_ms media_duration_ms)
    then (
      record q {
        dropped_packets = saturating_add 64 q.dropped_packets 1;
        dropped_frames =
            (if contains_flag packet.header.flags end_of_frame
              then saturating_add 64 q.dropped_frames 1
              else q.dropped_frames);
      },
      EnqueueDecision.drop_for_viewer,
    )
    else (
      record q {
        received_packets = saturating_add 64 q.received_packets 1;
        queued_media_ms = saturating_add 16 q.queued_media_ms media_duration_ms;
        queued_packets =
            q.queued_packets
            ++ (record { packet = packet; media_duration_ms = media_duration_ms } ∷ []);
      },
      EnqueueDecision.enqueued,
    )

-- The queue without the packet taken off its front.
unfoldable pub after_pop : ViewerQueue → QueuedPacket → List QueuedPacket → ViewerQueue
after_pop q queued rest = record q {
  queued_packets = rest;
  queued_media_ms = saturating_sub q.queued_media_ms queued.media_duration_ms;
}

unfoldable pub drain_one : ViewerQueue → ViewerQueue × Option MediaPacket
unfolding after_pop
drain_one q = elim q.queued_packets [
  | [] ↦ (q, none)
  | queued ∷ rest ↦ (after_pop q queued rest, some queued.packet)
]

unfoldable pub stats : ViewerQueue → QueueStats
stats q = record {
  queued_packets = cast 32 (length q.queued_packets);
  queued_media_ms = q.queued_media_ms;
  dropped_packets = q.dropped_packets;
  dropped_frames = q.dropped_frames;
}

pub record StreamFanout : Type 0 where
  pub stream_id : StreamId
  pub viewers : Map ViewerQueue

unfoldable pub new_fanout : StreamId → StreamFanout
new_fanout stream_id = record { stream_id = stream_id; viewers = [] }

unfoldable pub add_viewer : StreamFanout → UserId → ℕ → StreamFanout
unfolding new_queue
add_viewer f viewer_id queue_budget_ms =
    if BtreeMap.contains_key viewer_id f.viewers then f else record f {
      viewers = BtreeMap.insert viewer_id (new_queue viewer_id queue_budget_ms) f.viewers;
    }

unfoldable pub remove_viewer : StreamFanout → UserId → StreamFanout
remove_viewer f viewer_id = record f { viewers = BtreeMap.remove viewer_id f.viewers }

pub record FanoutSummary : Type 0 where
  pub stream_id : StreamId
  pub delivered_to : List UserId
  pub dropped_for : List UserId

unfoldable pub delivers : ViewerQueue → MediaPacket → ℕ → Bool
delivers q packet duration = elim (enqueue q packet duration).1 [
  | EnqueueDecision.enqueued ↦ true
  | EnqueueDecision.drop_for_viewer ↦ false
]

-- The loop over the viewers, which ascend, so that a set of them is built at its end.
unfoldable pub fanout_loop :
    Map ViewerQueue → MediaPacket → ℕ → Map ViewerQueue × List UserId × List UserId
unfolding delivers
fanout_loop [] packet duration = ([], [], [])
fanout_loop ((viewer_id, queue) ∷ viewers) packet duration =
    let (rest, delivered, dropped) = fanout_loop viewers packet duration in
    let here : UserId × ViewerQueue = (viewer_id, (enqueue queue packet duration).0) in
    if delivers queue packet duration
    then (here ∷ rest, viewer_id ∷ delivered, dropped)
    else (here ∷ rest, delivered, viewer_id ∷ dropped)

unfoldable pub fanout : StreamFanout → MediaPacket → ℕ → StreamFanout × FanoutSummary
unfolding fanout_loop
fanout f packet media_duration_ms =
    let (viewers, delivered, dropped) = fanout_loop f.viewers packet media_duration_ms in
    (
      record f { viewers = viewers },
      record { stream_id = f.stream_id; delivered_to = delivered; dropped_for = dropped },
    )
