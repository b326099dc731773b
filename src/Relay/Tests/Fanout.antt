-- ===== src/Relay/Tests/Fanout.antt =====
-- Instances of the theorems about crates/relay-server/src/router.rs.
use teamview.Prelude.{◌≡◌, List, [], ◌∷◌, ◌++◌, none, true, false, arith}
use teamview.Prelude.BtreeMap
use teamview.Prelude.BtreeSet
use teamview.Protocol.Packet.{MediaPacket}
use teamview.Relay.Router.{
  ViewerQueue, StreamFanout, new_queue, enqueue, drain_one, fanout, new_fanout,
}
use teamview.Relay.Router.Queue.{
  History, IsWithinBudget, made, offered, asked, accepted, drained, packets, history-fifo,
  history-IsWithinBudget,
}
use teamview.Relay.Router.Fanout.{own_queue, takes, fanout-viewers}
use teamview.Relay.Router.Refinement.{
  FanoutCall, adds, removes, sends, calls_of, own_calls, new_fanout-own_calls,
}
use teamview.Relay.Tests.Sample.{packet}

-- Two packets of 60 ms are offered to a queue of 100 ms, and one is asked for.
abbrev served : ViewerQueue
served = (drain_one (enqueue (enqueue (new_queue 2 100) packet 60).0 packet 60).0).0

abbrev served_ins : List MediaPacket
served_ins =
    ([] ++ accepted (enqueue (new_queue 2 100) packet 60).1 packet)
    ++ accepted (enqueue (enqueue (new_queue 2 100) packet 60).0 packet 60).1 packet

abbrev served_outs : List MediaPacket
served_outs =
    [] ++ drained (drain_one (enqueue (enqueue (new_queue 2 100) packet 60).0 packet 60).0).1

abbrev served_history : History 2 100 served served_ins served_outs
served_history = asked (offered packet 60 (offered packet 60 made))

history-fifo_example : served_ins ≡ served_outs ++ packets served.queued_packets
history-fifo_example = history-fifo 2 100 served served_ins served_outs served_history

history-IsWithinBudget_example : IsWithinBudget 100 served
history-IsWithinBudget_example =
    history-IsWithinBudget 2 100 served served_ins served_outs (omega arith) served_history

-- One viewer whose queue is full, and one with place.
abbrev fan : StreamFanout
fan = record { stream_id = 7; viewers = (2, new_queue 2 10) ∷ (5, new_queue 5 100) ∷ [] }

fanout-viewers_example :
    (BtreeMap.lookup 5 (fanout fan packet 33).0.viewers
      ≡ own_queue packet 33 (BtreeMap.lookup 5 fan.viewers))
    × (BtreeSet.contains 5 (fanout fan packet 33).1.delivered_to
        ≡ takes 33 true (BtreeMap.lookup 5 fan.viewers))
    × (BtreeSet.contains 5 (fanout fan packet 33).1.dropped_for
        ≡ takes 33 false (BtreeMap.lookup 5 fan.viewers))
fanout-viewers_example = fanout-viewers fan packet 33 5 (omega arith, (omega arith, tt))

-- A viewer whose queue is full, then removed and added again, beside another.
abbrev fan_calls : List FanoutCall
fan_calls =
    adds 2 50
    ∷ adds 5 100
    ∷ sends packet 33
    ∷ adds 2 9000
    ∷ sends packet 33
    ∷ removes 5
    ∷ adds 5 200
    ∷ []

new_fanout-own_calls_example :
    (BtreeMap.lookup 2 (calls_of (new_fanout 7) fan_calls).viewers ≡ own_calls 2 none fan_calls)
    × (BtreeSet.contains 2 (fanout (calls_of (new_fanout 7) fan_calls) packet 33).1.delivered_to
        ≡ takes 33 true (own_calls 2 none fan_calls))
    × (BtreeSet.contains 2 (fanout (calls_of (new_fanout 7) fan_calls) packet 33).1.dropped_for
        ≡ takes 33 false (own_calls 2 none fan_calls))
new_fanout-own_calls_example = new_fanout-own_calls 7 fan_calls 2 packet 33
