-- ===== src/Relay/Router/Fanout.antt =====
-- `StreamFanout` of crates/relay-server/src/router.rs: the viewers do not disturb each other.
use teamview.Prelude.{
  ℕ, suc, ◌≡◌, refl, Bool, true, false, not, Option, none, some, [], ◌∷◌, if◌then◌else◌, leb, arith,
}
use teamview.Prelude.BtreeMap
use teamview.Prelude.BtreeMap.{Map}
use teamview.Prelude.BtreeSet
use teamview.Protocol.Control.Names.{UserId}
use teamview.Protocol.Packet.{MediaPacket}
use teamview.Prelude.Words.{saturating_add}
use teamview.Relay.Router.{
  ViewerQueue, StreamFanout, enqueue, delivers, fanout_loop, fanout, add_viewer, remove_viewer,
  new_queue,
}

-- What one viewer's queue becomes.
abbrev pub own_queue : MediaPacket → ℕ → Option ViewerQueue → Option ViewerQueue
own_queue packet duration none = none
own_queue packet duration (some q) = some ((enqueue q packet duration).0)

-- Does the media time of a packet still fit into the queue's budget?
abbrev pub has_room : ViewerQueue → ℕ → Bool
has_room q duration = leb (saturating_add 16 q.queued_media_ms duration) q.queue_budget_ms

-- Is there a viewer whose queue has room, or one whose queue has not?
abbrev pub takes : ℕ → Bool → Option ViewerQueue → Bool
takes duration b none = false
takes duration b (some q) = if b then has_room q duration else not (has_room q duration)

delivers-has_room :
    (q : ViewerQueue) (packet : MediaPacket) (duration : ℕ)
    → delivers q packet duration ≡ has_room q duration
unfolding delivers enqueue
delivers-has_room q packet duration = ground arith

loop-lookup :
    (viewers : Map ViewerQueue) (packet : MediaPacket) (duration : ℕ) (v : UserId)
    → BtreeMap.lookup v (fanout_loop viewers packet duration).0
      ≡ own_queue packet duration (BtreeMap.lookup v viewers)
unfolding fanout_loop BtreeMap.lookup
loop-lookup [] packet duration v = refl
loop-lookup ((j, q) ∷ viewers) packet duration v =
    ground (arith, loop-lookup viewers packet duration v)

loop-delivered :
    (lo : ℕ) (viewers : Map ViewerQueue) (packet : MediaPacket) (duration : ℕ) (v : UserId)
    → BtreeMap.SortedFrom lo viewers
    → (BtreeSet.contains v (fanout_loop viewers packet duration).1
        ≡ takes duration true (BtreeMap.lookup v viewers))
      × (BtreeSet.contains v (fanout_loop viewers packet duration).2
          ≡ takes duration false (BtreeMap.lookup v viewers))
unfolding fanout_loop BtreeMap.lookup BtreeSet.contains
loop-delivered lo [] packet duration v o = (refl, refl)
loop-delivered lo ((j, q) ∷ viewers) packet duration v o =
    let ih = loop-delivered (suc j) viewers packet duration v o.1 in
    let above : j ≡ v → BtreeMap.lookup v viewers ≡ none =
      λ e. BtreeMap.lookup_below (suc j) v viewers o.1 (omega arith) in
    ground (arith, ih, above, delivers-has_room q packet duration)

loop-SortedFrom :
    (lo : ℕ) (viewers : Map ViewerQueue) (packet : MediaPacket) (duration : ℕ)
    → BtreeMap.SortedFrom lo viewers
    → BtreeMap.SortedFrom lo (fanout_loop viewers packet duration).0
unfolding fanout_loop
loop-SortedFrom lo [] packet duration o = tt
loop-SortedFrom lo ((j, q) ∷ viewers) packet duration o =
    ground (arith, loop-SortedFrom (suc j) viewers packet duration)

-- With the viewers in order, the queue of each viewer after `fanout` is its own queue before it,
-- offered the packet; the viewer is in `delivered_to` exactly when the packet's media time fits
-- into that queue's budget beside what it holds, and in `dropped_for` exactly when there is a queue
-- and it does not.
pub fanout-viewers :
    (f : StreamFanout) (packet : MediaPacket) (duration : ℕ) (v : UserId)
    → BtreeMap.IsSorted f.viewers
    → (BtreeMap.lookup v (fanout f packet duration).0.viewers
        ≡ own_queue packet duration (BtreeMap.lookup v f.viewers))
      × (BtreeSet.contains v (fanout f packet duration).1.delivered_to
          ≡ takes duration true (BtreeMap.lookup v f.viewers))
      × (BtreeSet.contains v (fanout f packet duration).1.dropped_for
          ≡ takes duration false (BtreeMap.lookup v f.viewers))
unfolding fanout
fanout-viewers f packet duration v o =
    let d = loop-delivered 0 f.viewers packet duration v o in
    (loop-lookup f.viewers packet duration v, d.0, d.1)

-- The viewers stay in order.
pub fanout-IsSorted :
    (f : StreamFanout) (packet : MediaPacket) (duration : ℕ)
    → BtreeMap.IsSorted f.viewers
    → BtreeMap.IsSorted (fanout f packet duration).0.viewers
unfolding fanout
fanout-IsSorted f packet duration o = loop-SortedFrom 0 f.viewers packet duration o

pub add_viewer-IsSorted :
    (f : StreamFanout) (v : UserId) (budget : ℕ)
    → BtreeMap.IsSorted f.viewers
    → BtreeMap.IsSorted (add_viewer f v budget).viewers
unfolding add_viewer
add_viewer-IsSorted f v budget o =
    let inserted = BtreeMap.insert-SortedFrom 0 v (new_queue v budget) f.viewers (omega arith) o in
    ground (arith, inserted)

pub remove_viewer-IsSorted :
    (f : StreamFanout) (v : UserId)
    → BtreeMap.IsSorted f.viewers
    → BtreeMap.IsSorted (remove_viewer f v).viewers
unfolding remove_viewer
remove_viewer-IsSorted f v o = BtreeMap.remove-SortedFrom 0 v f.viewers o
