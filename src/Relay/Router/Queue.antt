-- ===== src/Relay/Router/Queue.antt =====
-- The queue of one viewer in crates/relay-server/src/router.rs, over any sequence of its operations.
use mathlib.Core.List.{append_assoc, append-nil}
use teamview.Prelude.{ℕ, ◌+◌, ◌≤◌, ◌<◌, ◌≡◌, refl, Option, none, some, List, [], ◌∷◌, ◌++◌, arith}
use teamview.Prelude.Words.{max_of}
use teamview.Protocol.Control.Names.{UserId}
use teamview.Protocol.Packet.{MediaPacket}
use teamview.Relay.Router.{
  ViewerQueue, QueuedPacket, EnqueueDecision, new_queue, enqueue, drain_one, after_pop,
}

abbrev pub total_ms : List QueuedPacket → ℕ
total_ms [] = 0
total_ms (p ∷ ps) = p.media_duration_ms + total_ms ps

abbrev pub packets : List QueuedPacket → List MediaPacket
packets [] = []
packets (p ∷ ps) = p.packet ∷ packets ps

-- The packet is among the accepted ones if the queue took it.
abbrev pub accepted : EnqueueDecision → MediaPacket → List MediaPacket
accepted EnqueueDecision.enqueued p = p ∷ []
accepted EnqueueDecision.drop_for_viewer p = []

abbrev pub drained : Option MediaPacket → List MediaPacket
drained none = []
drained (some p) = p ∷ []

-- A queue, what it has accepted since it was made, and what it has given out.
pub data History (viewer_id : UserId) (budget : ℕ)
    : ViewerQueue → List MediaPacket → List MediaPacket → Type 0 where
  made : History viewer_id budget (new_queue viewer_id budget) [] []
  offered :
      {q : ViewerQueue} {ins outs : List MediaPacket}
      → (packet : MediaPacket) (duration : ℕ) → History viewer_id budget q ins outs
      → History viewer_id budget
          (enqueue q packet duration).0
          (ins ++ accepted (enqueue q packet duration).1 packet)
          outs
  asked :
      {q : ViewerQueue} {ins outs : List MediaPacket}
      → History viewer_id budget q ins outs
      → History viewer_id budget (drain_one q).0 ins (outs ++ drained (drain_one q).1)

total_ms-append : (ps qs : List QueuedPacket) → total_ms (ps ++ qs) ≡ total_ms ps + total_ms qs
total_ms-append [] qs = omega arith
total_ms-append (p ∷ ps) qs = omega (arith, total_ms-append ps qs)

-- The counter is the time that is queued, and within the budget.
pub record IsWithinBudget (budget : ℕ) (q : ViewerQueue) : Type 0 where
  pub same_budget : q.queue_budget_ms ≡ budget
  pub counted : q.queued_media_ms ≡ total_ms q.queued_packets
  pub bounded : q.queued_media_ms ≤ budget

enqueue-IsWithinBudget :
    (budget : ℕ) (q : ViewerQueue) (packet : MediaPacket) (duration : ℕ)
    → budget < max_of 16
    → IsWithinBudget budget q
    → IsWithinBudget budget (enqueue q packet duration).0
unfolding enqueue
enqueue-IsWithinBudget budget q packet duration b inv =
    let a =
      total_ms-append q.queued_packets
        (record { packet = packet; media_duration_ms = duration } ∷ []) in
    record {
      same_budget = ground (arith, inv.same_budget);
      counted = ground (arith, a, inv.counted, inv.bounded, inv.same_budget);
      bounded = ground (arith, inv.bounded, inv.same_budget);
    }

drain_one-IsWithinBudget :
    (budget : ℕ) (q : ViewerQueue) → IsWithinBudget budget q → IsWithinBudget budget (drain_one q).0
unfolding drain_one after_pop
drain_one-IsWithinBudget budget q inv = record {
  same_budget = ground (arith, inv.same_budget);
  counted = ground (arith, inv.counted);
  bounded = ground (arith, inv.bounded);
}

-- In every history of a viewer's queue whose budget is below 65535 ms, the queue counts exactly the
-- media time of the packets that it holds, and that is within the budget.
pub history-IsWithinBudget :
    (viewer_id : UserId) (budget : ℕ) (q : ViewerQueue) (ins outs : List MediaPacket)
    → budget < max_of 16
    → History viewer_id budget q ins outs
    → IsWithinBudget budget q
unfolding new_queue
history-IsWithinBudget viewer_id budget q ins outs b made = record {
  same_budget = refl;
  counted = refl;
  bounded = omega arith;
}
history-IsWithinBudget viewer_id budget q ins outs b
      (offered {q = q'} {ins = i} packet duration h) =
    enqueue-IsWithinBudget budget q' packet duration b
      (history-IsWithinBudget viewer_id budget q' i outs b h)
history-IsWithinBudget viewer_id budget q ins outs b (asked {q = q'} {outs = o} h) =
    drain_one-IsWithinBudget budget q' (history-IsWithinBudget viewer_id budget q' ins o b h)

packets-append : (ps qs : List QueuedPacket) → packets (ps ++ qs) ≡ packets ps ++ packets qs
packets-append [] qs = refl
packets-append (p ∷ ps) qs = rw (packets-append ps qs)

enqueue-packets :
    (q : ViewerQueue) (packet : MediaPacket) (duration : ℕ)
    → packets (enqueue q packet duration).0.queued_packets
      ≡ packets q.queued_packets ++ accepted (enqueue q packet duration).1 packet
unfolding enqueue
enqueue-packets q packet duration =
    let a =
      packets-append q.queued_packets
        (record { packet = packet; media_duration_ms = duration } ∷ []) in
    ground (arith, a, append-nil (packets q.queued_packets))

drain_one-packets :
    (q : ViewerQueue)
    → drained (drain_one q).1 ++ packets (drain_one q).0.queued_packets ≡ packets q.queued_packets
unfolding drain_one after_pop
drain_one-packets q = ground arith

-- In every history of a viewer's queue, the packets that it accepted are those that it gave out
-- followed by those that it holds, in the same order.
pub history-fifo :
    (viewer_id : UserId) (budget : ℕ) (q : ViewerQueue) (ins outs : List MediaPacket)
    → History viewer_id budget q ins outs
    → ins ≡ outs ++ packets q.queued_packets
unfolding new_queue
history-fifo viewer_id budget q ins outs made = refl
history-fifo viewer_id budget q ins outs (offered {q = q'} {ins = i} packet duration h) = rw (
  history-fifo viewer_id budget q' i outs h,
  enqueue-packets q' packet duration,
  append_assoc outs (packets q'.queued_packets),
)
history-fifo viewer_id budget q ins outs (asked {q = q'} {outs = o} h) =
    rw (history-fifo viewer_id budget q' ins o h, append_assoc o, drain_one-packets q')
