-- ===== src/Relay/Media/Depths.antt =====
-- The depths of a viewer's egress queue in crates/relay-server/src/media.rs, against the datagrams
-- that they stand for.
use teamview.Prelude.{
  ℕ, ◌+◌, ◌≤◌, ◌<◌, ◌^◌, ◌≡◌, ◌-◌, ◌∙◌, sym, subst, true, false, inl, inr, List, [], ◌∷◌, ◌++◌,
  ◌==◌, if◌then◌else◌, All, Option-cases, Bool-cases, arith,
}
use teamview.Prelude.BtreeMap
use teamview.Prelude.BtreeMap.{Map}
use teamview.Prelude.Words.{max_of}
use teamview.Protocol.Control.Names.{StreamId}
use teamview.Relay.Media.{
  EgressDatagram, EgressQueueDepth, no_depth, try_reserve_stream_depth, release_stream_depth, grown,
  released,
}

-- How many datagrams of a stream there are, and how much media time they hold.
abbrev pub count_of : StreamId → List EgressDatagram → ℕ
count_of t [] = 0
count_of t (d ∷ ds) = (if d.stream_id == t then 1 else 0) + count_of t ds

abbrev pub media_ms_of : StreamId → List EgressDatagram → ℕ
media_ms_of t [] = 0
media_ms_of t (d ∷ ds) = (if d.stream_id == t then d.media_duration_ms else 0) + media_ms_of t ds

-- A duration of at least a millisecond, in 16 bits.
pub record IsTimed (d : EgressDatagram) : Type 0 where
  pub positive : 1 ≤ d.media_duration_ms
  pub short : d.media_duration_ms < 2 ^ 16

-- What is noted for a stream is what its datagrams come to, and that is within the budget.
pub record IsNoted (budget : ℕ) (depth : EgressQueueDepth) (t : StreamId) (ds : List EgressDatagram)
    : Type 0 where
  pub packets : depth.queued_packets ≡ count_of t ds
  pub media : depth.queued_media_ms ≡ media_ms_of t ds
  pub bounded : media_ms_of t ds ≤ budget

pub record IsAccounted (budget : ℕ) (depths : Map EgressQueueDepth) (ds : List EgressDatagram)
    : Type 0 where
  pub timed : All IsTimed ds
  pub noted : (t : StreamId) → IsNoted budget (BtreeMap.get_or t no_depth depths) t ds

pub count_of-append :
    (t : StreamId) (ds es : List EgressDatagram)
    → count_of t (ds ++ es) ≡ count_of t ds + count_of t es
count_of-append t [] es = omega arith
count_of-append t (d ∷ ds) es = omega (arith, count_of-append t ds es)

pub media_ms_of-append :
    (t : StreamId) (ds es : List EgressDatagram)
    → media_ms_of t (ds ++ es) ≡ media_ms_of t ds + media_ms_of t es
media_ms_of-append t [] es = omega arith
media_ms_of-append t (d ∷ ds) es = omega (arith, media_ms_of-append t ds es)

pub count_of-le-media_ms_of :
    (t : StreamId) (ds : List EgressDatagram) → All IsTimed ds → count_of t ds ≤ media_ms_of t ds
count_of-le-media_ms_of t [] timed = omega arith
count_of-le-media_ms_of t (d ∷ ds) timed =
    ground (arith, count_of-le-media_ms_of t ds timed.1, timed.0.positive)

get_or-insert :
    (t k : StreamId) (v : EgressQueueDepth) (depths : Map EgressQueueDepth)
    → BtreeMap.get_or t no_depth (BtreeMap.insert k v depths)
      ≡ (if k == t then v else BtreeMap.get_or t no_depth depths)
unfolding BtreeMap.get_or
get_or-insert t k v depths = ground (arith, BtreeMap.lookup-insert t k v depths)

get_or-remove :
    (t k : StreamId) (depths : Map EgressQueueDepth)
    → BtreeMap.get_or t no_depth (BtreeMap.remove k depths)
      ≡ (if k == t then no_depth else BtreeMap.get_or t no_depth depths)
unfolding BtreeMap.get_or
get_or-remove t k depths = ground (arith, BtreeMap.lookup-remove t k depths)

grown-IsNoted :
    (budget : ℕ) (depth : EgressQueueDepth) (t : StreamId) (d : EgressDatagram)
    (ds : List EgressDatagram)
    → budget < max_of 16
    → IsTimed d
    → All IsTimed ds
    → d.stream_id ≡ t
    → (grown depth d.media_duration_ms).queued_media_ms ≤ budget
    → IsNoted budget depth t ds
    → IsNoted budget (grown depth d.media_duration_ms) t (d ∷ ds)
unfolding grown
grown-IsNoted budget depth t d ds b timed all same fits noted =
    let c = count_of-le-media_ms_of t ds all in
    record {
      packets = ground (arith, c, noted.packets, noted.media, noted.bounded);
      media = ground (arith, noted.media, timed.short);
      bounded = ground (arith, noted.media, timed.short);
    }

released-IsNoted :
    (budget : ℕ) (depth : EgressQueueDepth) (t : StreamId) (d : EgressDatagram)
    (ds : List EgressDatagram)
    → d.stream_id ≡ t
    → IsNoted budget depth t (d ∷ ds)
    → IsNoted budget (released depth d.media_duration_ms) t ds
unfolding released
released-IsNoted budget depth t d ds same noted = record {
  packets = ground (arith, noted.packets);
  media = ground (arith, noted.media);
  bounded = ground (arith, noted.bounded);
}

-- A datagram of another stream does not count.
other-IsNoted :
    (budget : ℕ) (depth : EgressQueueDepth) (t : StreamId) (d : EgressDatagram)
    (ds : List EgressDatagram)
    → (d.stream_id == t) ≡ false
    → (IsNoted budget depth t ds → IsNoted budget depth t (d ∷ ds))
      × (IsNoted budget depth t (d ∷ ds) → IsNoted budget depth t ds)
other-IsNoted budget depth t d ds other = (
  λ noted. record {
    packets = ground (arith, noted.packets);
    media = ground (arith, noted.media);
    bounded = ground (arith, noted.bounded);
  },
  λ noted. record {
    packets = ground (arith, noted.packets);
    media = ground (arith, noted.media);
    bounded = ground (arith, noted.bounded);
  },
)

-- A release lowers the depth of its stream; a depth of nothing is the one that a removed entry has.
get_or-release :
    (depths : Map EgressQueueDepth) (k : StreamId) (ms : ℕ) (t : StreamId)
    → BtreeMap.get_or t no_depth (release_stream_depth depths k ms) ≡ (
        if k == t
        then released (BtreeMap.get_or k no_depth depths) ms
        else BtreeMap.get_or t no_depth depths)
unfolding release_stream_depth released BtreeMap.get_or
get_or-release depths k ms t = elim (Option-cases (BtreeMap.lookup k depths)) [
  | inl missing ↦ ground (arith, missing)
  | inr (d, found) ↦ ground (
    arith,
    found,
    BtreeMap.lookup-remove t k depths,
    BtreeMap.lookup-insert t k
        (record { queued_packets = d.queued_packets - 1; queued_media_ms = d.queued_media_ms - ms })
        depths,
  )
]

-- A reservation that succeeds accounts for the datagram.
pub try_reserve_stream_depth-IsAccounted :
    (budget : ℕ) (depths : Map EgressQueueDepth) (d : EgressDatagram) (ds : List EgressDatagram)
    → budget < max_of 16
    → IsTimed d
    → (try_reserve_stream_depth depths d.stream_id d.media_duration_ms budget).0 ≡ true
    → IsAccounted budget depths ds
    → IsAccounted budget
        (try_reserve_stream_depth depths d.stream_id d.media_duration_ms budget).1
        (d ∷ ds)
unfolding try_reserve_stream_depth
try_reserve_stream_depth-IsAccounted budget depths d ds b timed reserved acc =
    let next = grown (BtreeMap.get_or d.stream_id no_depth depths) d.media_duration_ms in
    let fits : next.queued_media_ms ≤ budget = ground arith in
    let entered : (try_reserve_stream_depth depths d.stream_id d.media_duration_ms budget).1
        ≡ BtreeMap.insert d.stream_id next depths =
      ground arith in
    record {
      timed = (timed, acc.timed);
      noted = λ t.
          rw (entered, get_or-insert t d.stream_id next depths)
            (elim (Bool-cases (d.stream_id == t)) [
              | inl same ↦
                  let e : d.stream_id ≡ t = ground arith in
                  rw same (
                    grown-IsNoted budget (BtreeMap.get_or d.stream_id no_depth depths) t d ds b
                      timed acc.timed e fits (rw e (acc.noted t)))
              | inr other ↦ rw other ((other-IsNoted budget _ t d ds other).0 (acc.noted t))
            ]);
    }

-- A release takes the datagram out of the account.
pub release_stream_depth-IsAccounted :
    (budget : ℕ) (depths : Map EgressQueueDepth) (d : EgressDatagram) (ds : List EgressDatagram)
    → IsAccounted budget depths (d ∷ ds)
    → IsAccounted budget (release_stream_depth depths d.stream_id d.media_duration_ms) ds
release_stream_depth-IsAccounted budget depths d ds acc = record {
  timed = acc.timed.1;
  noted = λ t.
      rw (get_or-release depths d.stream_id d.media_duration_ms t)
        (elim (Bool-cases (d.stream_id == t)) [
          | inl same ↦
              let e : d.stream_id ≡ t = ground arith in
              rw same (
                released-IsNoted budget (BtreeMap.get_or d.stream_id no_depth depths) t d ds e (
                  subst (λ k. IsNoted budget (BtreeMap.get_or k no_depth depths) t (d ∷ ds)) (sym e)
                    (acc.noted t)))
          | inr other ↦ rw other ((other-IsNoted budget _ t d ds other).1 (acc.noted t))
        ]);
}

-- Only what there is of each stream counts, not the order.
pub IsAccounted-same :
    (budget : ℕ) (depths : Map EgressQueueDepth) (ds es : List EgressDatagram)
    → All IsTimed es
    → ((t : StreamId) → (count_of t ds ≡ count_of t es) × (media_ms_of t ds ≡ media_ms_of t es))
    → IsAccounted budget depths ds
    → IsAccounted budget depths es
IsAccounted-same budget depths ds es timed same acc = record {
  timed = timed;
  noted = λ t. record {
    packets = (acc.noted t).packets ∙ (same t).0;
    media = (acc.noted t).media ∙ (same t).1;
    bounded = ground (arith, (acc.noted t).bounded, (same t).1);
  };
}
