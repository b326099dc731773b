-- ===== src/Relay/Media/Interleaving.antt =====
-- The egress queue of one viewer in crates/relay-server/src/media.rs, as the relay and the viewer's
-- send task use it at the same time. Each step is one call on the channel or on the locked depths.
use mathlib.Core.List.{append_assoc}
use teamview.Prelude.{
  ℕ, ◌<◌, ◌≡◌, refl, subst, Bool, true, false, Option, none, some, List, [], ◌∷◌, ◌++◌, All,
  Bool-cases, inl, inr, arith,
}
use teamview.Prelude.BtreeMap
use teamview.Prelude.BtreeMap.{Map}
use teamview.Prelude.Words.{max_of}
use teamview.Relay.Media.{
  EgressDatagram, EgressQueueDepth, try_reserve_stream_depth, release_stream_depth,
}
use teamview.Relay.Media.Channel.{Mpsc, MpscLaws, SendOutcome}
use teamview.Relay.Media.Egress.{ViewerEgress, try_reserve_media, release_media}
use teamview.Relay.Media.Depths.{
  IsTimed, IsAccounted, count_of-append, media_ms_of-append, try_reserve_stream_depth-IsAccounted,
  release_stream_depth-IsAccounted, IsAccounted-same,
}

-- `offering` is reserved by the relay and not yet sent, `sending` is received by the send task and not
-- yet released.
pub record Shared (Chan : Type 0) : Type 0 where
  pub egress : ViewerEgress Chan
  pub offering : Option EgressDatagram
  pub sending : Option EgressDatagram

abbrev pub held : Option EgressDatagram → List EgressDatagram
held none = []
held (some d) = d ∷ []

-- What a datagram is offered with if the reservation succeeds.
abbrev pub reserved_by : Bool → EgressDatagram → Option EgressDatagram
reserved_by true d = some d
reserved_by false d = none

-- The datagram stays with the relay if the channel does not take it.
abbrev pub kept_after : SendOutcome → EgressDatagram → Option EgressDatagram
kept_after SendOutcome.sent d = none
kept_after SendOutcome.full d = some d
kept_after SendOutcome.closed d = some d

module _ {Chan : Type 0} (mpsc : Mpsc Chan EgressDatagram) (budget : ℕ) where
  pub data Reachable : Shared Chan → Type 0 where
    registered :
        (capacity : ℕ)
        → Reachable (record {
          egress = record { sender = mpsc.channel capacity; stream_depths = [] };
          offering = none;
          sending = none;
        })
    reserves :
        {e : ViewerEgress Chan} {taken : Option EgressDatagram}
        → (d : EgressDatagram) → IsTimed d
        → Reachable (record { egress = e; offering = none; sending = taken })
        → Reachable (record {
          egress = (try_reserve_media mpsc e d.stream_id d.media_duration_ms budget).1;
          offering =
              reserved_by (try_reserve_media mpsc e d.stream_id d.media_duration_ms budget).0 d;
          sending = taken;
        })
    tries_send :
        {e : ViewerEgress Chan} {taken : Option EgressDatagram} {d : EgressDatagram}
        → Reachable (record { egress = e; offering = some d; sending = taken })
        → Reachable (record {
          egress = record e { sender = (mpsc.try_send e.sender d).0 };
          offering = kept_after (mpsc.try_send e.sender d).1 d;
          sending = taken;
        })
    gives_up :
        {e : ViewerEgress Chan} {taken : Option EgressDatagram} {d : EgressDatagram}
        → Reachable (record { egress = e; offering = some d; sending = taken })
        → Reachable (record {
          egress = release_media mpsc e d.stream_id d.media_duration_ms;
          offering = none;
          sending = taken;
        })
    receives :
        {e : ViewerEgress Chan} {offered : Option EgressDatagram} {d : EgressDatagram} {c : Chan}
        → mpsc.recv e.sender ≡ some (d, c)
        → Reachable (record { egress = e; offering = offered; sending = none })
        → Reachable
            (record { egress = record e { sender = c }; offering = offered; sending = some d })
    releases :
        {e : ViewerEgress Chan} {offered : Option EgressDatagram} {d : EgressDatagram}
        → Reachable (record { egress = e; offering = offered; sending = some d })
        → Reachable (record {
          egress = release_media mpsc e d.stream_id d.media_duration_ms;
          offering = offered;
          sending = none;
        })

All-append :
    (ds es : List EgressDatagram) → All IsTimed ds → All IsTimed es → All IsTimed (ds ++ es)
All-append [] es p q = q
All-append (d ∷ ds) es p q = (p.0, All-append ds es p.1 q)

All-parts : (ds es : List EgressDatagram) → All IsTimed (ds ++ es) → All IsTimed ds × All IsTimed es
All-parts [] es p = (tt, p)
All-parts (d ∷ ds) es p = let r = All-parts ds es p.1 in ((p.0, r.0), r.1)

-- Where a datagram stands in the list changes no account.
module _ (budget : ℕ) (depths : Map EgressQueueDepth) (d : EgressDatagram)
    (ds es : List EgressDatagram) where
  pushed_back-IsAccounted :
      IsAccounted budget depths (d ∷ (ds ++ es)) → IsAccounted budget depths (ds ++ (d ∷ es))
  pushed_back-IsAccounted acc =
      let p = All-parts ds es acc.timed.1 in
      IsAccounted-same budget depths (d ∷ (ds ++ es)) (ds ++ (d ∷ es))
        (All-append ds (d ∷ es) p.0 (acc.timed.0, p.1))
        (λ t. (
          omega (arith, count_of-append t ds es, count_of-append t ds (d ∷ es)),
          omega (arith, media_ms_of-append t ds es, media_ms_of-append t ds (d ∷ es)),
        ))
        acc

  pulled_front-IsAccounted :
      IsAccounted budget depths (ds ++ (d ∷ es)) → IsAccounted budget depths (d ∷ (ds ++ es))
  pulled_front-IsAccounted acc =
      let p = All-parts ds (d ∷ es) acc.timed in
      IsAccounted-same budget depths (ds ++ (d ∷ es)) (d ∷ (ds ++ es))
        (p.1.0, All-append ds es p.0 p.1.1)
        (λ t. (
          omega (arith, count_of-append t ds es, count_of-append t ds (d ∷ es)),
          omega (arith, media_ms_of-append t ds es, media_ms_of-append t ds (d ∷ es)),
        ))
        acc

module _ {Chan : Type 0} (mpsc : Mpsc Chan EgressDatagram) (laws : MpscLaws mpsc) (budget : ℕ) where
  -- What the depths have to account for.
  abbrev pub outstanding : Shared Chan → List EgressDatagram
  outstanding s = held s.offering ++ (laws.waiting s.egress.sender ++ held s.sending)

  abbrev Accounted : Shared Chan → Type 0
  Accounted s = IsAccounted budget s.egress.stream_depths (outstanding s)

  registered-Accounted :
      (capacity : ℕ) → IsAccounted budget [] (laws.waiting (mpsc.channel capacity) ++ [])
  unfolding BtreeMap.get_or BtreeMap.lookup
  registered-Accounted capacity = rw (laws.waiting-channel capacity) (record {
    timed = tt;
    noted = λ t. record { packets = refl; media = refl; bounded = omega arith };
  })

  reserves-Accounted :
      (e : ViewerEgress Chan) (taken : Option EgressDatagram) (d : EgressDatagram)
      → budget < max_of 16
      → IsTimed d
      → Accounted (record { egress = e; offering = none; sending = taken })
      → Accounted (record {
        egress = (try_reserve_media mpsc e d.stream_id d.media_duration_ms budget).1;
        offering =
            reserved_by (try_reserve_media mpsc e d.stream_id d.media_duration_ms budget).0 d;
        sending = taken;
      })
  unfolding try_reserve_media try_reserve_stream_depth
  reserves-Accounted e taken d b timed acc =
      let r = try_reserve_stream_depth e.stream_depths d.stream_id d.media_duration_ms budget in
      elim (Bool-cases r.0) [
        | inl granted ↦
            rw granted
              (try_reserve_stream_depth-IsAccounted budget e.stream_depths d _ b timed granted acc)
        | inr denied ↦
            let same : r.1 ≡ e.stream_depths = ground (arith, denied) in rw (denied, same) acc
      ]

  tries_send-Accounted :
      (e : ViewerEgress Chan) (taken : Option EgressDatagram) (d : EgressDatagram)
      (outcome : SendOutcome)
      → (mpsc.try_send e.sender d).1 ≡ outcome
      → Accounted (record { egress = e; offering = some d; sending = taken })
      → IsAccounted budget e.stream_depths
          (held (kept_after outcome d) ++ (laws.waiting (mpsc.try_send e.sender d).0 ++ held taken))
  tries_send-Accounted e taken d SendOutcome.sent o acc =
      rw (laws.waiting-sent e.sender d o, append_assoc (laws.waiting e.sender))
        (pushed_back-IsAccounted budget e.stream_depths d (laws.waiting e.sender) (held taken) acc)
  tries_send-Accounted e taken d SendOutcome.full o acc = rw (laws.waiting-full e.sender d o) acc
  tries_send-Accounted e taken d SendOutcome.closed o acc =
      rw (laws.waiting-closed e.sender d o) acc

  receives-Accounted :
      (e : ViewerEgress Chan) (os : List EgressDatagram) (d : EgressDatagram) (c : Chan)
      → mpsc.recv e.sender ≡ some (d, c)
      → IsAccounted budget e.stream_depths (os ++ (laws.waiting e.sender ++ []))
      → IsAccounted budget e.stream_depths (os ++ (laws.waiting c ++ (d ∷ [])))
  receives-Accounted e os d c got acc =
      let first = laws.waiting-recv e.sender c d got in
      let front : IsAccounted budget e.stream_depths (d ∷ (os ++ (laws.waiting c ++ []))) =
        pulled_front-IsAccounted budget e.stream_depths d os (laws.waiting c ++ [])
          (subst (λ ws. IsAccounted budget e.stream_depths (os ++ (ws ++ []))) first acc) in
      rw (← append_assoc os (laws.waiting c) (d ∷ [])) (
        pushed_back-IsAccounted budget e.stream_depths d (os ++ laws.waiting c) []
          (rw (append_assoc os (laws.waiting c) []) front))

  releases-Accounted :
      (e : ViewerEgress Chan) (os : List EgressDatagram) (d : EgressDatagram)
      → IsAccounted budget e.stream_depths (os ++ (laws.waiting e.sender ++ (d ∷ [])))
      → IsAccounted budget
          (release_stream_depth e.stream_depths d.stream_id d.media_duration_ms)
          (os ++ (laws.waiting e.sender ++ []))
  releases-Accounted e os d acc =
      let ws = laws.waiting e.sender in
      release_stream_depth-IsAccounted budget e.stream_depths d (os ++ (ws ++ [])) (
        rw (← append_assoc os ws []) (
          pulled_front-IsAccounted budget e.stream_depths d (os ++ ws) []
            (rw (append_assoc os ws (d ∷ [])) acc)))

  -- However the calls of the relay and of a viewer's send task on the shared channel and depths
  -- interleave, the depth of every stream is the number and the media time of its datagrams that
  -- are reserved, in the channel or being sent, and the media time is within the budget; the
  -- channel keeps its documented behaviour, the budget is below 65535 ms and each datagram lasts at
  -- least 1 ms.
  pub reachable-IsAccounted :
      (s : Shared Chan) → budget < max_of 16 → Reachable mpsc budget s → Accounted s
  unfolding try_reserve_media release_media
  reachable-IsAccounted s b (registered capacity) = registered-Accounted capacity
  reachable-IsAccounted s b (reserves {e = e} {taken = taken} d timed h) =
      reserves-Accounted e taken d b timed (reachable-IsAccounted _ b h)
  reachable-IsAccounted s b (tries_send {e = e} {taken = taken} {d = d} h) =
      tries_send-Accounted e taken d _ refl (reachable-IsAccounted _ b h)
  reachable-IsAccounted s b (gives_up {e = e} {d = d} h) =
      release_stream_depth-IsAccounted budget e.stream_depths d _ (reachable-IsAccounted _ b h)
  reachable-IsAccounted s b (receives {e = e} {offered = offered} {d = d} {c = c} got h) =
      receives-Accounted e (held offered) d c got (reachable-IsAccounted _ b h)
  reachable-IsAccounted s b (releases {e = e} {offered = offered} {d = d} h) =
      releases-Accounted e (held offered) d (reachable-IsAccounted _ b h)
