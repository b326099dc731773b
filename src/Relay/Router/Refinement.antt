-- ===== src/Relay/Router/Refinement.antt =====
-- `StreamFanout` of crates/relay-server/src/router.rs against its contract: each viewer has a queue of
-- its own, which only the calls that are about it change.
use teamview.Prelude.{
  ℕ, ◌≡◌, ◌∙◌, refl, ap, true, false, Option, none, some, List, [], ◌∷◌, ◌==◌, if◌then◌else◌, arith,
  Option-cases, inl, inr,
}
use teamview.Prelude.BtreeMap
use teamview.Prelude.BtreeSet
use teamview.Protocol.Control.Names.{UserId, StreamId}
use teamview.Protocol.Packet.{MediaPacket}
use teamview.Relay.Router.{
  ViewerQueue, StreamFanout, new_fanout, fanout, add_viewer, remove_viewer, new_queue,
}
use teamview.Relay.Router.Fanout.{
  own_queue, takes, fanout-viewers, fanout-IsSorted, add_viewer-IsSorted, remove_viewer-IsSorted,
}

pub data FanoutCall : Type 0 where
  adds : UserId → ℕ → FanoutCall
  removes : UserId → FanoutCall
  sends : MediaPacket → ℕ → FanoutCall

unfoldable pub call : StreamFanout → FanoutCall → StreamFanout
call f (adds viewer_id budget) = add_viewer f viewer_id budget
call f (removes viewer_id) = remove_viewer f viewer_id
call f (sends packet duration) = (fanout f packet duration).0

abbrev pub calls_of : StreamFanout → List FanoutCall → StreamFanout
calls_of f [] = f
calls_of f (c ∷ cs) = calls_of (call f c) cs

-- The contract, for one viewer: no queue, or its queue.
abbrev pub own_call : UserId → Option ViewerQueue → FanoutCall → Option ViewerQueue
own_call v (some q) (adds viewer_id budget) = some q
own_call v none (adds viewer_id budget) =
    if viewer_id == v then some (new_queue viewer_id budget) else none
own_call v q (removes viewer_id) = if viewer_id == v then none else q
own_call v q (sends packet duration) = own_queue packet duration q

abbrev pub own_calls : UserId → Option ViewerQueue → List FanoutCall → Option ViewerQueue
own_calls v q [] = q
own_calls v q (c ∷ cs) = own_calls v (own_call v q c) cs

call-IsSorted :
    (f : StreamFanout) (c : FanoutCall)
    → BtreeMap.IsSorted f.viewers
    → BtreeMap.IsSorted (call f c).viewers
unfolding call
call-IsSorted f (adds u budget) o = add_viewer-IsSorted f u budget o
call-IsSorted f (removes u) o = remove_viewer-IsSorted f u o
call-IsSorted f (sends packet duration) o = fanout-IsSorted f packet duration o

call-own_call :
    (f : StreamFanout) (c : FanoutCall) (v : UserId)
    → BtreeMap.IsSorted f.viewers
    → BtreeMap.lookup v (call f c).viewers ≡ own_call v (BtreeMap.lookup v f.viewers) c
unfolding call add_viewer remove_viewer BtreeMap.contains_key
call-own_call f (adds u budget) v o = elim (Option-cases (BtreeMap.lookup v f.viewers)) [
  | inl e ↦ ground (arith, e, BtreeMap.lookup-insert v u (new_queue u budget) f.viewers)
  | inr (q, e) ↦ ground (arith, e, BtreeMap.lookup-insert v u (new_queue u budget) f.viewers)
]
call-own_call f (removes u) v o = elim (Option-cases (BtreeMap.lookup v f.viewers)) [
  | inl e ↦ ground (arith, e, BtreeMap.lookup-remove v u f.viewers)
  | inr (q, e) ↦ ground (arith, e, BtreeMap.lookup-remove v u f.viewers)
]
call-own_call f (sends packet duration) v o = (fanout-viewers f packet duration v o).0

calls_of-own_calls :
    (f : StreamFanout) (cs : List FanoutCall) (v : UserId)
    → BtreeMap.IsSorted f.viewers
    → (BtreeMap.lookup v (calls_of f cs).viewers ≡ own_calls v (BtreeMap.lookup v f.viewers) cs)
      × BtreeMap.IsSorted (calls_of f cs).viewers
calls_of-own_calls f [] v o = (refl, o)
calls_of-own_calls f (c ∷ cs) v o =
    let rest = calls_of-own_calls (call f c) cs v (call-IsSorted f c o) in
    (rest.0 ∙ ap (λ q. own_calls v q cs) (call-own_call f c v o), rest.1)

-- After any calls on a new fanout, the queue of each viewer is what the calls about it alone have
-- made of it: `add_viewer` gives it an empty queue, if it has none; `remove_viewer` takes its queue
-- away; and each packet is offered to it. And the next packet counts as delivered to exactly the
-- viewers with a queue whose budget its media time fits into, and as dropped for exactly the other
-- viewers with a queue.
pub new_fanout-own_calls :
    (stream_id : StreamId) (cs : List FanoutCall) (v : UserId) (packet : MediaPacket) (duration : ℕ)
    → let f = calls_of (new_fanout stream_id) cs in
      let q = own_calls v none cs in
      (BtreeMap.lookup v f.viewers ≡ q)
      × (BtreeSet.contains v (fanout f packet duration).1.delivered_to ≡ takes duration true q)
      × (BtreeSet.contains v (fanout f packet duration).1.dropped_for ≡ takes duration false q)
unfolding new_fanout BtreeMap.lookup
new_fanout-own_calls stream_id cs v packet duration =
    let (own, sorted) = calls_of-own_calls (new_fanout stream_id) cs v tt in
    let sent = fanout-viewers (calls_of (new_fanout stream_id) cs) packet duration v sorted in
    (own, sent.1 ∙ ap (takes duration true) own, sent.2 ∙ ap (takes duration false) own)
