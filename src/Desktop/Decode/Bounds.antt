-- ===== src/Desktop/Decode/Bounds.antt =====
-- What the reassembly buffer of crates/desktop-client/src/decode/mod.rs holds at most.
use teamview.Prelude.{
  ℕ, suc, ◌+◌, ◌≤◌, ◌≡◌, ◌∙◌, Bool, true, false, not, inl, inr, Bool-cases, List, [], ◌∷◌, ◌++◌,
  length, ◌==◌, max, arith,
}
use teamview.Prelude.BtreeMap
use teamview.Prelude.BtreeMap.{Map, SortedFrom, IsSorted}
use teamview.Protocol.Packet.{MediaPacket}
use teamview.Desktop.Decode.{
  FrameReassemblyBuffer, PendingFrame, has_fragment, evict_stale_frames, frame_is_older_than_window,
  evict_oldest, evict_over, evict_media_budget, media_ms, make_room, complete, keep_waiting, admit,
  push_with_stats_at, with_limits, with_jitter_budget,
}

-- The frames are in order, no more than there is room for, and their media time is within the budget.
pub record IsBounded (b : FrameReassemblyBuffer) : Type 0 where
  pub room : 1 ≤ b.pending_limit
  pub sorted : IsSorted b.pending
  pub few : length b.pending ≤ b.pending_limit
  pub within : media_ms b.frame_interval_ms (length b.pending) ≤ b.media_ms_limit

media_ms_mono : (i m n : ℕ) → m ≤ n → media_ms i m ≤ media_ms i n
unfolding media_ms
media_ms_mono i m n h = grind arith

media_ms_zero : (i : ℕ) → media_ms i 0 ≡ 0
unfolding media_ms
media_ms_zero i = grind arith

length-retain-le :
    (p : ℕ → PendingFrame → Bool) (m : Map PendingFrame) → length (BtreeMap.retain p m) ≤ length m
unfolding BtreeMap.retain
length-retain-le p [] = omega arith
length-retain-le p ((k, v) ∷ m) = ground (arith, length-retain-le p m)

evict_oldest-bounds :
    (limit lo : ℕ) (m : Map PendingFrame)
    → 1 ≤ limit
    → SortedFrom lo m
    → (length (evict_oldest limit m).0 + 1 ≤ limit)
      × (length (evict_oldest limit m).0 ≤ length m)
      × SortedFrom lo (evict_oldest limit m).0
unfolding evict_oldest
evict_oldest-bounds limit lo [] h s = (omega arith, omega arith, tt)
evict_oldest-bounds limit lo ((k, v) ∷ m) h s =
    let (small, less, sorted) = evict_oldest-bounds limit (suc k) m h s.1 in
    let later = BtreeMap.SortedFrom-mono lo (suc k) (evict_oldest limit m).0 (omega arith) sorted in
    (ground (arith, small), ground (arith, less), ground (arith, later))

evict_over-bounds :
    (limit interval lo : ℕ) (m : Map PendingFrame)
    → SortedFrom lo m
    → (media_ms interval (length (evict_over limit interval m).0) ≤ limit)
      × (length (evict_over limit interval m).0 ≤ length m)
      × SortedFrom lo (evict_over limit interval m).0
unfolding evict_over
evict_over-bounds limit interval lo [] s =
    let nothing : media_ms interval 0 ≤ limit = ground (arith, media_ms_zero interval) in
    (nothing, omega arith, tt)
evict_over-bounds limit interval lo ((k, v) ∷ m) s =
    let (small, less, sorted) = evict_over-bounds limit interval (suc k) m s.1 in
    let later =
      BtreeMap.SortedFrom-mono lo (suc k) (evict_over limit interval m).0 (omega arith) sorted in
    (ground (arith, small), ground (arith, less), ground (arith, later))

evict_stale_frames-IsBounded :
    (b : FrameReassemblyBuffer) (f : ℕ) → IsBounded b → IsBounded (evict_stale_frames b f).0
unfolding evict_stale_frames
evict_stale_frames-IsBounded b f inv =
    let fresh = λ (k : ℕ) (_ : PendingFrame). not (frame_is_older_than_window k f b.age_limit) in
    let fewer = length-retain-le fresh b.pending in
    record {
      room = inv.room;
      sorted = BtreeMap.retain-SortedFrom 0 fresh b.pending inv.sorted;
      few = omega (arith, fewer, inv.few);
      within = omega (arith, media_ms_mono b.frame_interval_ms _ _ fewer, inv.within);
    }

-- After the evictions there is room for the packet's frame.
make_room-bounds :
    (b : FrameReassemblyBuffer) (f : ℕ)
    → IsBounded b
    → let r = (make_room b f).0 in
      IsBounded r
      × (BtreeMap.contains_key f r.pending ≡ false → length r.pending + 1 ≤ r.pending_limit)
unfolding make_room BtreeMap.contains_key
make_room-bounds b f inv =
    let s = (evict_stale_frames b f).0 in
    let fresh = evict_stale_frames-IsBounded b f inv in
    let (small, less, sorted) =
      evict_oldest-bounds s.pending_limit 0 s.pending fresh.room fresh.sorted in
    elim (Bool-cases (BtreeMap.contains_key f s.pending)) [
      | inl known ↦ rw (make_room, known) (fresh, λ new. ground (arith, known, new))
      | inr new ↦
          rw (make_room, new)
            (
              record {
                room = fresh.room;
                sorted = sorted;
                few = omega (arith, less, fresh.few);
                within = omega (arith, media_ms_mono s.frame_interval_ms _ _ less, fresh.within);
              },
              λ _. small,
            )
    ]

length-remove-insert-le :
    (k : ℕ) (v : PendingFrame) (m : Map PendingFrame)
    → length (BtreeMap.remove k (BtreeMap.insert k v m)) ≤ length m
unfolding BtreeMap.remove BtreeMap.insert
length-remove-insert-le k v [] = ground arith
length-remove-insert-le k v ((j, w) ∷ m) =
    ground (arith, length-remove-insert-le k v m, BtreeMap.length-remove-le k m)

module _ (b : FrameReassemblyBuffer) (inv : IsBounded b) (f : ℕ) (v : PendingFrame) where
  abbrev with_entry : FrameReassemblyBuffer
  with_entry = record b { pending = BtreeMap.insert f v b.pending }

  -- A frame that is known has its entry replaced.
  with_entry-IsBounded : BtreeMap.contains_key f b.pending ≡ true → IsBounded with_entry
  with_entry-IsBounded known =
      let same : length with_entry.pending ≡ length b.pending =
        BtreeMap.length-insert 0 f v b.pending inv.sorted ∙ rw known in
      record {
        room = inv.room;
        sorted = BtreeMap.insert-SortedFrom 0 f v b.pending (omega arith) inv.sorted;
        few = omega (arith, same, inv.few);
        within = rw same inv.within;
      }

  complete-IsBounded : (now dropped : ℕ) → IsBounded (complete with_entry f v now dropped).0
  unfolding complete
  complete-IsBounded now dropped =
      let fewer = length-remove-insert-le f v b.pending in
      record {
        room = inv.room;
        sorted =
            BtreeMap.remove-SortedFrom 0 f with_entry.pending
              (BtreeMap.insert-SortedFrom 0 f v b.pending (omega arith) inv.sorted);
        few = omega (arith, fewer, inv.few);
        within = omega (arith, media_ms_mono b.frame_interval_ms _ _ fewer, inv.within);
      }

  keep_waiting-IsBounded :
      (dropped : ℕ)
      → (BtreeMap.contains_key f b.pending ≡ false → length b.pending + 1 ≤ b.pending_limit)
      → IsBounded (keep_waiting with_entry dropped).0
  unfolding keep_waiting evict_media_budget
  keep_waiting-IsBounded dropped roomy =
      let size = BtreeMap.length-insert 0 f v b.pending inv.sorted in
      let ordered = BtreeMap.insert-SortedFrom 0 f v b.pending (omega arith) inv.sorted in
      let (small, less, sorted) =
        evict_over-bounds b.media_ms_limit b.frame_interval_ms 0 with_entry.pending ordered in
      record {
        room = inv.room;
        sorted = sorted;
        few = ground (arith, size, roomy, less, inv.few);
        within = small;
      }

-- A frame that has a packet is known.
known_lem :
    (i f now : ℕ) (m : Map PendingFrame)
    → has_fragment i
        (BtreeMap.get_or f
          (record { first_packet_receive_time_micros = now; packets = [] })
          m).packets
      ≡ true
    → BtreeMap.contains_key f m ≡ true
unfolding BtreeMap.get_or BtreeMap.contains_key has_fragment
known_lem i f now m h = ground (arith, h)

admit-IsBounded :
    (b : FrameReassemblyBuffer) (p : MediaPacket) (now dropped : ℕ)
    → IsBounded b
    → (BtreeMap.contains_key p.header.frame_id b.pending ≡ false
        → length b.pending + 1 ≤ b.pending_limit)
    → IsBounded (admit b p now dropped).0
unfolding admit
admit-IsBounded b p now dropped inv roomy =
    let f = p.header.frame_id in
    let entry =
      BtreeMap.get_or f (record { first_packet_receive_time_micros = now; packets = [] })
        b.pending in
    let v : PendingFrame = record entry { packets = entry.packets ++ (p ∷ []) } in
    elim (Bool-cases (has_fragment p.header.fragment_index entry.packets)) [
      | inl twice ↦
          rw (admit, twice)
            (with_entry-IsBounded b inv f entry
              (known_lem p.header.fragment_index f now b.pending twice))
      | inr new ↦ elim (Bool-cases (length v.packets == p.header.fragment_count)) [
        | inl whole ↦ rw (admit, new, whole) (complete-IsBounded b inv f v now dropped)
        | inr partial ↦ rw (admit, new, partial) (keep_waiting-IsBounded b inv f v dropped roomy)
      ]
    ]

push_with_stats_at-IsBounded :
    (b : FrameReassemblyBuffer) (p : MediaPacket) (now : ℕ)
    → IsBounded b
    → IsBounded (push_with_stats_at b p now).0
unfolding push_with_stats_at
push_with_stats_at-IsBounded b p now inv =
    let r = make_room b p.header.frame_id in
    let (ready, roomy) = make_room-bounds b p.header.frame_id inv in
    admit-IsBounded r.0 p now r.1 ready roomy

-- Packets, each with the time at which it comes.
abbrev pub push_each : FrameReassemblyBuffer → List (MediaPacket × ℕ) → FrameReassemblyBuffer
push_each b [] = b
push_each b ((p, now) ∷ ps) = push_each (push_with_stats_at b p now).0 ps

push_each-IsBounded :
    (b : FrameReassemblyBuffer) (ps : List (MediaPacket × ℕ))
    → IsBounded b
    → IsBounded (push_each b ps)
push_each-IsBounded b [] inv = inv
push_each-IsBounded b ((p, now) ∷ ps) inv =
    push_each-IsBounded (push_with_stats_at b p now).0 ps (push_with_stats_at-IsBounded b p now inv)

-- After any packets at any times, a reassembly buffer made by either constructor has its frames in
-- the order of their numbers, no more of them than its limit, and no more media time than its
-- budget.
pub pushed-IsBounded :
    (frames age media interval : ℕ) (ps : List (MediaPacket × ℕ))
    → IsBounded (push_each (with_limits frames age) ps)
      × IsBounded (push_each (with_jitter_budget frames age media interval) ps)
unfolding with_limits with_jitter_budget
pushed-IsBounded frames age media interval ps = (
  push_each-IsBounded (with_limits frames age) ps (record {
    room = omega arith;
    sorted = tt;
    few = omega arith;
    within = ground (arith, media_ms_zero 1);
  }),
  push_each-IsBounded (with_jitter_budget frames age media interval) ps (record {
    room = omega arith;
    sorted = tt;
    few = omega arith;
    within = ground (arith, media_ms_zero (max interval 1));
  }),
)
