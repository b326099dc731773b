-- ===== src/Desktop/Stats/Losses.antt =====
-- Lost packets as crates/desktop-client/src/stats.rs counts them.
use teamview.Prelude.{
  ℕ, ◌+◌, ◌-◌, ◌%◌, ◌^◌, ◌≤◌, ◌<◌, ◌≡◌, refl, some, List, [], ◌∷◌, length, arith,
}
use teamview.Protocol.Packet.{MediaPacket}
use teamview.Desktop.Decode.{wrapping_sub}
use teamview.Desktop.Stats.{
  ClientMediaStats, no_media_stats, record_sequence, record_packet, to_viewer_report,
}

-- Packets are recorded one after the other.
abbrev pub record_packets : ClientMediaStats → List MediaPacket → ClientMediaStats
record_packets s [] = s
record_packets s (p ∷ ps) = record_packets (record_packet s p) ps

abbrev pub total : List ℕ → ℕ
total [] = 0
total (d ∷ ds) = d + total ds

-- Each packet's number is as far ahead of the one before it, modulo 2^32, as the list says: less than
-- half of the numbers.
pub data AheadBy : ℕ → List ℕ → List MediaPacket → Type 0 where
  none_ahead : {previous : ℕ} → AheadBy previous [] []
  one_ahead :
      {previous d : ℕ} {ds : List ℕ} {p : MediaPacket} {ps : List MediaPacket}
      → 1 ≤ d
      → d < 2147483647
      → p.header.sequence_number ≡ (previous + d) % 2 ^ 32
      → AheadBy p.header.sequence_number ds ps
      → AheadBy previous (d ∷ ds) (p ∷ ps)

wrapping_sub_ahead :
    (previous d : ℕ)
    → previous < 2 ^ 32
    → d < 2 ^ 32
    → wrapping_sub ((previous + d) % 2 ^ 32) previous ≡ d
wrapping_sub_ahead previous d h h' = omega arith

record_packet-counts :
    (s : ClientMediaStats) (p : MediaPacket) (previous d : ℕ)
    → s.last_sequence_number ≡ some previous
    → previous < 2 ^ 32
    → 1 ≤ d
    → d < 2147483647
    → p.header.sequence_number ≡ (previous + d) % 2 ^ 32
    → s.received_packets + 1 < 2 ^ 64
    → s.lost_packets + d < 2 ^ 64
    → let s' = record_packet s p in
      (s'.last_sequence_number ≡ some p.header.sequence_number)
      × (s'.received_packets ≡ s.received_packets + 1)
      × (s'.lost_packets ≡ s.lost_packets + (d - 1))
unfolding record_packet record_sequence
record_packet-counts s p previous d last small one half number few lost =
    let e : wrapping_sub p.header.sequence_number previous ≡ d = omega arith in
    ground (arith, last, e)

ahead-counts :
    (s : ClientMediaStats) (previous : ℕ) (ds : List ℕ) (ps : List MediaPacket)
    → AheadBy previous ds ps
    → s.last_sequence_number ≡ some previous
    → previous < 2 ^ 32
    → s.received_packets + length ps < 2 ^ 64
    → s.lost_packets + total ds < 2 ^ 64
    → ((record_packets s ps).received_packets ≡ s.received_packets + length ps)
      × ((record_packets s ps).lost_packets + length ps ≡ s.lost_packets + total ds)
ahead-counts s previous ds ps none_ahead last small few lost = (omega arith, omega arith)
ahead-counts s previous ds ps (one_ahead {d = d} {ds = es} {p = p} {ps = qs} one half number rest)
      last small few lost =
    let (last', received', lost') =
      record_packet-counts s p previous d last small one half number (omega arith) (omega arith) in
    let (all, gone) =
      ahead-counts (record_packet s p) p.header.sequence_number es qs rest last' (omega arith)
        (omega arith) (omega arith) in
    (omega (arith, all, received'), omega (arith, gone, lost'))

first-counts :
    (p : MediaPacket)
    → let s = record_packet no_media_stats p in
      (s.last_sequence_number ≡ some p.header.sequence_number)
      × (s.received_packets ≡ 1)
      × (s.lost_packets ≡ 0)
unfolding record_packet record_sequence no_media_stats
first-counts p = (refl, omega arith, refl)

-- For packets whose numbers each lie between 1 and 2147483646 ahead of the one before, modulo 2^32,
-- the viewer's report counts every packet as received, and received and lost packets together are 1
-- and the sum of the distances, as long as both stay below 2^64.
pub record_packets-losses :
    (p : MediaPacket) (ds : List ℕ) (ps : List MediaPacket) (room_id stream_id : ℕ)
    → AheadBy p.header.sequence_number ds ps
    → p.header.sequence_number < 2 ^ 32
    → length (p ∷ ps) < 2 ^ 64
    → total ds < 2 ^ 64
    → let report = to_viewer_report (record_packets no_media_stats (p ∷ ps)) room_id stream_id in
      (report.received_packets ≡ length (p ∷ ps))
      × (report.received_packets + report.lost_packets ≡ 1 + total ds)
unfolding to_viewer_report
record_packets-losses p ds ps room_id stream_id ahead small few lost =
    let (last, one, zero_lost) = first-counts p in
    let (received, gone) =
      ahead-counts (record_packet no_media_stats p) p.header.sequence_number ds ps ahead last small
        (omega arith) (omega arith) in
    (omega (arith, received, one), omega (arith, received, gone, one, zero_lost))
