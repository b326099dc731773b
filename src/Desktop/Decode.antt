-- ===== src/Desktop/Decode.antt =====
-- crates/desktop-client/src/decode/mod.rs: the buffer in which a viewer puts frames together.
pub mod Delivery
pub mod Bounds
pub mod AnyOrder
use teamview.Prelude.{
  ℕ, ◌+◌, ◌-◌, ◌/◌, ◌%◌, ◌^◌, min, max, Bool, true, false, not, ◌&&◌, ◌||◌, Option, none, some,
  List, [], ◌∷◌, ◌++◌, ◌==◌, ltb, leb, if◌then◌else◌, length,
}
use teamview.Prelude.BtreeMap
use teamview.Prelude.BtreeMap.{Map}
use teamview.Prelude.Result.{Result, ok, err, panic}
use teamview.Prelude.Words.{saturating_add, saturating_mul, saturating_sub, max_of, cast}
use teamview.Protocol.Packet.{MediaPacket}
use teamview.Protocol.Frame.{EncodedFrame, FrameReassemblyError, reassemble_frame}

abbrev pub max_pending_frames : ℕ
max_pending_frames = 64

abbrev pub max_frame_age_frames : ℕ
max_frame_age_frames = 64

abbrev pub unbounded_pending_media_ms : ℕ
unbounded_pending_media_ms = 65535

pub record PendingFrame : Type 0 where
  pub first_packet_receive_time_micros : ℕ
  pub packets : List MediaPacket

pub record FrameReassemblyBuffer : Type 0 where
  pub pending : Map PendingFrame
  pub pending_limit : ℕ
  pub age_limit : ℕ
  pub media_ms_limit : ℕ
  pub frame_interval_ms : ℕ

pub record ReassemblyOutcome : Type 0 where
  pub frame : Option EncodedFrame
  pub dropped_frames : ℕ
  pub reassembly_ms : ℕ

pub data PushError : Type 0 where
  duplicate_media_fragment : (fragment_index frame_id : ℕ) → PushError
  reassembly : FrameReassemblyError → PushError

unfoldable pub with_limits : ℕ → ℕ → FrameReassemblyBuffer
with_limits frames age = record {
  pending = [];
  pending_limit = max frames 1;
  age_limit = max age 1;
  media_ms_limit = unbounded_pending_media_ms;
  frame_interval_ms = 1;
}

unfoldable pub new_buffer : FrameReassemblyBuffer
unfolding with_limits
new_buffer = with_limits max_pending_frames max_frame_age_frames

unfoldable pub with_jitter_budget : ℕ → ℕ → ℕ → ℕ → FrameReassemblyBuffer
with_jitter_budget frames age media_ms frame_interval_ms = record {
  pending = [];
  pending_limit = max frames 1;
  age_limit = max age 1;
  media_ms_limit = max media_ms (max frame_interval_ms 1);
  frame_interval_ms = max frame_interval_ms 1;
}

unfoldable pub elapsed_millis : ℕ → ℕ → ℕ
elapsed_millis start_micros end_micros =
    if start_micros == 0 || ltb end_micros start_micros
    then 0
    else min (saturating_sub end_micros start_micros / 1000) (max_of 16)

-- `wrapping_sub` of 32-bit numbers.
abbrev pub wrapping_sub : ℕ → ℕ → ℕ
wrapping_sub a b = (a + 2 ^ 32 - b) % 2 ^ 32

unfoldable pub frame_is_older_than_window : ℕ → ℕ → ℕ → Bool
frame_is_older_than_window frame_id newest_frame_id age =
    let distance = wrapping_sub newest_frame_id frame_id in
    ltb age distance && ltb distance (max_of 32 / 2)

-- The frames that stay, and how many go.
unfoldable pub evict_stale_frames : FrameReassemblyBuffer → ℕ → FrameReassemblyBuffer × ℕ
unfolding frame_is_older_than_window
evict_stale_frames b newest_frame_id =
    let stale = λ (frame_id : ℕ). frame_is_older_than_window frame_id newest_frame_id b.age_limit in
    (
      record b { pending = BtreeMap.retain (λ frame_id _. not (stale frame_id)) b.pending },
      length (BtreeMap.keys_where (λ frame_id _. stale frame_id) b.pending),
    )

-- The loop that makes room for one more frame: it takes the entry of the least key, which is the first.
unfoldable pub evict_oldest : ℕ → Map PendingFrame → Map PendingFrame × ℕ
evict_oldest limit [] = ([], 0)
evict_oldest limit (e ∷ m) =
    let (rest, dropped) = evict_oldest limit m in
    if leb limit (length (e ∷ m)) then (rest, dropped + 1) else (e ∷ m, 0)

unfoldable pub media_ms : ℕ → ℕ → ℕ
media_ms interval frames = min (saturating_mul 64 frames interval) (max_of 16)

unfoldable pub pending_media_ms : FrameReassemblyBuffer → ℕ
unfolding media_ms
pending_media_ms b = media_ms b.frame_interval_ms (length b.pending)

-- The loop of `evict_media_budget`.
unfoldable pub evict_over : ℕ → ℕ → Map PendingFrame → Map PendingFrame × ℕ
unfolding media_ms
evict_over limit interval [] = ([], 0)
evict_over limit interval (e ∷ m) =
    let (rest, dropped) = evict_over limit interval m in
    if ltb limit (media_ms interval (length (e ∷ m)))
    then (rest, saturating_add 64 dropped 1)
    else (e ∷ m, 0)

unfoldable pub evict_media_budget : FrameReassemblyBuffer → FrameReassemblyBuffer × ℕ
unfolding evict_over
evict_media_budget b =
    let (pending, dropped) = evict_over b.media_ms_limit b.frame_interval_ms b.pending in
    (record b { pending = pending }, dropped)

unfoldable pub has_fragment : ℕ → List MediaPacket → Bool
has_fragment fragment_index [] = false
has_fragment fragment_index (p ∷ ps) =
    (p.header.fragment_index == fragment_index) || has_fragment fragment_index ps

-- The stale frames go, and the oldest ones where a new frame finds no room.
unfoldable pub make_room : FrameReassemblyBuffer → ℕ → FrameReassemblyBuffer × ℕ
make_room b frame_id =
    let (fresh, stale) = evict_stale_frames b frame_id in
    if BtreeMap.contains_key frame_id fresh.pending
    then (fresh, stale)
    else (let (pending, dropped) = evict_oldest fresh.pending_limit fresh.pending in
        (record fresh { pending = pending }, stale + dropped))

-- The last packet of a frame has come: the frame leaves the buffer.
unfoldable pub complete :
    FrameReassemblyBuffer
    → ℕ
    → PendingFrame
    → ℕ
    → ℕ
    → FrameReassemblyBuffer × Result PushError ReassemblyOutcome
complete b frame_id pending now dropped = (
  record b { pending = BtreeMap.remove frame_id b.pending },
  elim (reassemble_frame pending.packets) [
    | ok frame ↦ ok (record {
      frame = some frame;
      dropped_frames = dropped;
      reassembly_ms = elapsed_millis pending.first_packet_receive_time_micros now;
    })
    | err e ↦ err (PushError.reassembly e)
    | panic ↦ panic
  ],
)

-- A frame that still waits for packets.
unfoldable pub keep_waiting :
    FrameReassemblyBuffer → ℕ → FrameReassemblyBuffer × Result PushError ReassemblyOutcome
keep_waiting b dropped =
    let (b', over) = evict_media_budget b in
    (b', ok (record { frame = none; dropped_frames = dropped + over; reassembly_ms = 0 }))

-- The packet joins its frame, for which there is room.
unfoldable pub admit :
    FrameReassemblyBuffer
    → MediaPacket
    → ℕ
    → ℕ
    → FrameReassemblyBuffer × Result PushError ReassemblyOutcome
admit b packet now dropped =
    let frame_id = packet.header.frame_id in
    let index = packet.header.fragment_index in
    let entry : PendingFrame =
      BtreeMap.get_or frame_id (record { first_packet_receive_time_micros = now; packets = [] })
        b.pending in
    let entered : FrameReassemblyBuffer = record b {
      pending = BtreeMap.insert frame_id entry b.pending;
    } in
    if has_fragment index entry.packets
    then (entered, err (PushError.duplicate_media_fragment index frame_id))
    else (let grown : PendingFrame = record entry { packets = entry.packets ++ (packet ∷ []) } in
        let b' : FrameReassemblyBuffer = record b {
          pending = BtreeMap.insert frame_id grown b.pending;
        } in
        if length grown.packets == packet.header.fragment_count
        then complete b' frame_id grown now dropped
        else keep_waiting b' dropped)

unfoldable pub push_with_stats_at :
    FrameReassemblyBuffer
    → MediaPacket
    → ℕ
    → FrameReassemblyBuffer × Result PushError ReassemblyOutcome
push_with_stats_at b packet now =
    let (roomy, dropped) = make_room b packet.header.frame_id in admit roomy packet now dropped

unfoldable pub push_with_stats :
    FrameReassemblyBuffer → MediaPacket → FrameReassemblyBuffer × Result PushError ReassemblyOutcome
push_with_stats b packet = push_with_stats_at b packet 0

-- `map(|outcome| outcome.frame)`
abbrev pub frame_answer :
    Result PushError ReassemblyOutcome → Result PushError (Option EncodedFrame)
frame_answer (ok o) = ok o.frame
frame_answer (err e) = err e
frame_answer panic = panic

unfoldable pub push_packet :
    FrameReassemblyBuffer
    → MediaPacket
    → FrameReassemblyBuffer × Result PushError (Option EncodedFrame)
push_packet b packet = let (b', outcome) = push_with_stats b packet in (b', frame_answer outcome)

unfoldable pub pending_frames : FrameReassemblyBuffer → ℕ
pending_frames b = length b.pending

unfoldable pub estimated_jitter_ms : FrameReassemblyBuffer → ℕ → ℕ
estimated_jitter_ms b frame_interval_ms =
    saturating_mul 16 (cast 16 (length b.pending)) frame_interval_ms
