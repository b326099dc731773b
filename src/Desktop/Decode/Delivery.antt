-- ===== src/Desktop/Decode/Delivery.antt =====
-- The reassembly buffer of crates/desktop-client/src/decode/mod.rs against `reassemble_frame`.
use mathlib.Core.List.{append_assoc}
use teamview.Prelude.{
  ℕ, ◌+◌, ◌≤◌, ◌≡◌, ◌≢◌, refl, subst, ◌∙◌, true, false, Option, none, some, List, [], ◌∷◌, ◌++◌,
  length, length-append, All, ◌==◌, if◌then◌else◌, arith, ne→==, eq→==,
}
use teamview.Prelude.BtreeMap
use teamview.Prelude.BtreeMap.{Map}
use teamview.Prelude.Result.{Result, ok, err, panic}
use teamview.Protocol.Packet.{MediaPacket}
use teamview.Protocol.Frame.{EncodedFrame, FrameReassemblyError, reassemble_frame, index_of}
use teamview.Protocol.Frame.Order.{Distinct}
use teamview.Desktop.Decode.{
  FrameReassemblyBuffer, PushError, frame_answer, has_fragment, frame_is_older_than_window,
  evict_stale_frames, evict_oldest, evict_over, evict_media_budget, media_ms, make_room, complete,
  keep_waiting, admit, push_with_stats_at, push_with_stats, push_packet,
}

-- The limits that the constructors give: room for a frame, and for its media time.
pub record IsConfigured (b : FrameReassemblyBuffer) : Type 0 where
  pub room : 1 ≤ b.pending_limit
  pub budget : b.frame_interval_ms ≤ b.media_ms_limit

-- What `push` gives when a frame's packets are complete.
abbrev pub reassembled :
    Result FrameReassemblyError EncodedFrame → Result PushError (Option EncodedFrame)
reassembled (ok frame) = ok (some frame)
reassembled (err e) = err (PushError.reassembly e)
reassembled panic = panic

-- The packets are pushed one after the other; the answers in order.
unfoldable pub push_all :
    FrameReassemblyBuffer
    → List MediaPacket
    → FrameReassemblyBuffer × List (Result PushError (Option EncodedFrame))
push_all b [] = (b, [])
push_all b (p ∷ ps) =
    let (b', answer) = push_packet b p in
    let (b'', answers) = push_all b' ps in (b'', answer ∷ answers)

push_all_cons :
    (b b' : FrameReassemblyBuffer) (p : MediaPacket) (ps : List MediaPacket)
    (answer : Result PushError (Option EncodedFrame))
    → push_packet b p ≡ (b', answer)
    → push_all b (p ∷ ps) ≡ ((push_all b' ps).0, answer ∷ (push_all b' ps).1)
unfolding push_all
push_all_cons b b' p ps answer e = rw e

push_all_nil : (b : FrameReassemblyBuffer) → push_all b [] ≡ (b, [])
unfolding push_all
push_all_nil b = refl

-- The buffer that waits with these packets of one frame.
abbrev waiting : FrameReassemblyBuffer → ℕ → List MediaPacket → FrameReassemblyBuffer
waiting b frame_id [] = record b { pending = [] }
waiting b frame_id (p ∷ ps) = record b {
  pending = (frame_id, record { first_packet_receive_time_micros = 0; packets = p ∷ ps }) ∷ [];
}

same_is_fresh : (f age : ℕ) → frame_is_older_than_window f f age ≡ false
unfolding frame_is_older_than_window
same_is_fresh f age = ground arith

one_fits :
    (b : FrameReassemblyBuffer) → IsConfigured b → media_ms b.frame_interval_ms 1 ≤ b.media_ms_limit
unfolding media_ms
one_fits b c = ground (arith, c.budget)

make_room-waiting :
    (b : FrameReassemblyBuffer) (f : ℕ) (ps : List MediaPacket)
    → IsConfigured b
    → make_room (waiting b f ps) f ≡ (waiting b f ps, 0)
unfolding make_room evict_stale_frames evict_oldest BtreeMap.retain BtreeMap.keys_where
    BtreeMap.contains_key BtreeMap.lookup
make_room-waiting b f [] c = refl
make_room-waiting b f (p ∷ ps) c = ground (arith, same_is_fresh f b.age_limit)

keep_waiting-waiting :
    (b : FrameReassemblyBuffer) (f : ℕ) (p : MediaPacket) (ps : List MediaPacket)
    → IsConfigured b
    → keep_waiting (waiting b f (p ∷ ps)) 0
      ≡ (waiting b f (p ∷ ps), ok (record { frame = none; dropped_frames = 0; reassembly_ms = 0 }))
unfolding keep_waiting evict_media_budget evict_over
keep_waiting-waiting b f p ps c = ground (arith, one_fits b c)

-- The buffer and the answer after a new packet, when the frame has these packets with it.
abbrev after_push :
    FrameReassemblyBuffer
    → ℕ
    → MediaPacket
    → List MediaPacket
    → FrameReassemblyBuffer × Result PushError (Option EncodedFrame)
after_push b f p ps =
    if length ps == p.header.fragment_count
    then (waiting b f [], reassembled (reassemble_frame ps))
    else (waiting b f ps, ok none)

module _ (b : FrameReassemblyBuffer) (c : IsConfigured b) (p : MediaPacket) where
  abbrev frame_id : ℕ
  frame_id = p.header.frame_id

  complete-waiting :
      (ps qs : List MediaPacket)
      → let r =
          complete
            (record b {
              pending =
                  BtreeMap.insert frame_id
                    (record { first_packet_receive_time_micros = 0; packets = ps })
                    (waiting b frame_id qs).pending;
            })
            frame_id
            (record { first_packet_receive_time_micros = 0; packets = ps })
            0
            0 in
        (r.0 ≡ waiting b frame_id []) × (frame_answer r.1 ≡ reassembled (reassemble_frame ps))
  unfolding complete BtreeMap.remove BtreeMap.insert
  complete-waiting ps [] = (ground arith, ground arith)
  complete-waiting ps (q ∷ qs) = (ground arith, ground arith)

  admit-waiting :
      (acc : List MediaPacket)
      → has_fragment p.header.fragment_index acc ≡ false
      → let r = admit (waiting b frame_id acc) p 0 0 in
        (r.0 ≡ (after_push b frame_id p (acc ++ (p ∷ []))).0)
        × (frame_answer r.1 ≡ (after_push b frame_id p (acc ++ (p ∷ []))).1)
  unfolding admit BtreeMap.get_or BtreeMap.lookup BtreeMap.insert has_fragment
  admit-waiting [] new =
      let (left, answer) = complete-waiting (p ∷ []) [] in
      let keep = keep_waiting-waiting b frame_id p [] c in
      (ground (arith, left, answer, keep), ground (arith, left, answer, keep))
  admit-waiting (q ∷ qs) new =
      let (left, answer) = complete-waiting (q ∷ (qs ++ (p ∷ []))) (q ∷ qs) in
      let keep = keep_waiting-waiting b frame_id q (qs ++ (p ∷ [])) c in
      (ground (arith, left, answer, keep, new), ground (arith, left, answer, keep, new))

  push_packet-waiting :
      (acc : List MediaPacket)
      → has_fragment p.header.fragment_index acc ≡ false
      → push_packet (waiting b frame_id acc) p ≡ after_push b frame_id p (acc ++ (p ∷ []))
  unfolding push_packet push_with_stats push_with_stats_at
  push_packet-waiting acc new =
      rw (push_packet, push_with_stats, push_with_stats_at, make_room-waiting b frame_id acc c)
        (let (l, a) = admit-waiting acc new in rw (l, a))

-- The packets of one frame that is cut into `count`.
pub record IsFragmentOf (frame_id count : ℕ) (p : MediaPacket) : Type 0 where
  pub same_frame : p.header.frame_id ≡ frame_id
  pub counted : p.header.fragment_count ≡ count

abbrev Unseen : List MediaPacket → List MediaPacket → Type 0
Unseen acc = All (λ p. has_fragment (index_of p) acc ≡ false)

has_fragment-append :
    (i : ℕ) (acc : List MediaPacket) (p : MediaPacket)
    → has_fragment i acc ≡ false
    → i ≢ index_of p
    → has_fragment i (acc ++ (p ∷ [])) ≡ false
unfolding has_fragment
has_fragment-append i [] p h ne = ground arith
has_fragment-append i (q ∷ acc) p h ne = ground (arith, has_fragment-append i acc p)

Unseen-append :
    (acc : List MediaPacket) (p : MediaPacket) (ps : List MediaPacket)
    → Unseen acc ps
    → All (λ q. index_of q ≢ index_of p) ps
    → Unseen (acc ++ (p ∷ [])) ps
Unseen-append acc p [] unseen apart = tt
Unseen-append acc p (q ∷ qs) unseen apart = (
  has_fragment-append (index_of q) acc p unseen.0 apart.0,
  Unseen-append acc p qs unseen.1 apart.1,
)

-- No answer until the last packet, and then this one.
abbrev pub answers :
    List MediaPacket
    → Result PushError (Option EncodedFrame)
    → List (Result PushError (Option EncodedFrame))
answers [] last = []
answers (p ∷ []) last = last ∷ []
answers (p ∷ q ∷ qs) last = ok none ∷ answers (q ∷ qs) last

module _ (b : FrameReassemblyBuffer) (c : IsConfigured b) (f count : ℕ) where
  push_packet-fragment :
      (acc : List MediaPacket) (p : MediaPacket)
      → IsFragmentOf f count p
      → has_fragment p.header.fragment_index acc ≡ false
      → push_packet (waiting b f acc) p ≡ after_push b f p (acc ++ (p ∷ []))
  push_packet-fragment acc p frag new =
      subst (λ k. push_packet (waiting b k acc) p ≡ after_push b k p (acc ++ (p ∷ [])))
        frag.same_frame (push_packet-waiting b c p acc new)

  push_all-waiting :
      (acc : List MediaPacket) (p : MediaPacket) (ps : List MediaPacket)
      → length acc + length (p ∷ ps) ≡ count
      → All (IsFragmentOf f count) (p ∷ ps)
      → Distinct (p ∷ ps)
      → Unseen acc (p ∷ ps)
      → push_all (waiting b f acc) (p ∷ ps)
        ≡ (waiting b f [], answers (p ∷ ps) (reassembled (reassemble_frame (acc ++ (p ∷ ps)))))
  push_all-waiting acc p [] n frags distinct unseen =
      let step = push_packet-fragment acc p frags.0 unseen.0 in
      let full : (length (acc ++ (p ∷ [])) == p.header.fragment_count) ≡ true =
        eq→== _ _ (omega (arith, length-append acc (p ∷ []), frags.0.counted)) in
      push_all_cons (waiting b f acc) (waiting b f []) p []
        (reassembled (reassemble_frame (acc ++ (p ∷ [])))) (step ∙ rw full)
      ∙ rw (push_all_nil (waiting b f []))
  push_all-waiting acc p (q ∷ qs) n frags distinct unseen =
      let step = push_packet-fragment acc p frags.0 unseen.0 in
      let more : (length (acc ++ (p ∷ [])) == p.header.fragment_count) ≡ false =
        ne→== _ _ (omega (arith, length-append acc (p ∷ []), frags.0.counted)) in
      let ih =
        push_all-waiting (acc ++ (p ∷ [])) q qs (omega (arith, length-append acc (p ∷ []))) frags.1
          distinct.1 (Unseen-append acc p (q ∷ qs) unseen.1 distinct.0) in
      push_all_cons (waiting b f acc) (waiting b f (acc ++ (p ∷ []))) p (q ∷ qs) (ok none)
        (step ∙ rw more)
      ∙ rw (ih, append_assoc acc (p ∷ []) (q ∷ qs))

Unseen-none : (ps : List MediaPacket) → Unseen [] ps
unfolding has_fragment
Unseen-none [] = tt
Unseen-none (p ∷ ps) = (refl, Unseen-none ps)

-- An idle buffer is its state.
pub push_all-reassemble_frame :
    (b : FrameReassemblyBuffer) (f : ℕ) (ps : List MediaPacket)
    → IsConfigured b
    → b.pending ≡ []
    → All (IsFragmentOf f (length ps)) ps
    → Distinct ps
    → push_all b ps ≡ (b, answers ps (reassembled (reassemble_frame ps)))
push_all-reassemble_frame b f [] c idle frags distinct = push_all_nil b
push_all-reassemble_frame b f (p ∷ ps) c idle frags distinct =
    let same : waiting b f [] ≡ b = cc in
    subst
      (λ s. push_all s (p ∷ ps) ≡ (s, answers (p ∷ ps) (reassembled (reassemble_frame (p ∷ ps)))))
      same
      (push_all-waiting b c f (length (p ∷ ps)) [] p ps (omega arith) frags distinct
        (Unseen-none (p ∷ ps)))
