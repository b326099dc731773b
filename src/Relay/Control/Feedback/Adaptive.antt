-- ===== src/Relay/Control/Feedback/Adaptive.antt =====
-- How the target of a degraded stream falls, in crates/relay-server/src/control.rs.
use teamview.Prelude.{ℕ, zero, suc, ◌+◌, ◌-◌, ◌≤◌, max, ◌≡◌, arith}
use teamview.Relay.Control.Targets.{StreamTarget}
use teamview.Relay.Control.Targets.Bounds.{IsAllowed, reduce_resolution-bounds}
use teamview.Relay.Control.Feedback.{degraded_target}

-- One round of degradation makes an allowed target of an allowed one, with no part higher than
-- before.
pub degraded_target-bounds :
    (t : StreamTarget)
    → IsAllowed t
    → IsAllowed (degraded_target t)
      × ((degraded_target t).bitrate_bps ≤ t.bitrate_bps)
      × ((degraded_target t).frames_per_second ≤ t.frames_per_second)
      × ((degraded_target t).width ≤ t.width)
      × ((degraded_target t).height ≤ t.height)
unfolding degraded_target
degraded_target-bounds t a =
    let r = reduce_resolution-bounds t.width t.height a.resolution in
    (
      record {
        bitrate_low = omega arith;
        bitrate_high = ground (arith, a.bitrate_high);
        frames_low = ground (arith, a.frames_low);
        frames_high = ground (arith, a.frames_high);
        resolution = ground (arith, a.resolution, r.0);
      },
      ground (arith, a.bitrate_low),
      ground (arith, a.frames_low),
      ground (arith, r.1),
      ground (arith, r.2),
    )

-- `n` rounds of degradation.
abbrev pub rounds : ℕ → StreamTarget → StreamTarget
rounds zero t = t
rounds (suc n) t = rounds n (degraded_target t)

rounds-bitrate :
    (n : ℕ) (t : StreamTarget)
    → IsAllowed t
    → (rounds n t).bitrate_bps ≤ max 16000 (t.bitrate_bps - n)
unfolding degraded_target
rounds-bitrate zero t a = omega (arith, a.bitrate_low)
rounds-bitrate (suc n) t a = omega (
  arith,
  rounds-bitrate n (degraded_target t) (degraded_target-bounds t a).0,
  a.bitrate_low,
  a.bitrate_high,
)

rounds-IsAllowed : (n : ℕ) (t : StreamTarget) → IsAllowed t → IsAllowed (rounds n t)
rounds-IsAllowed zero t a = a
rounds-IsAllowed (suc n) t a = rounds-IsAllowed n (degraded_target t) (degraded_target-bounds t a).0

-- The bitrate of an allowed target that is at most n above 16000 is 16000 after n rounds of
-- degradation.
pub rounds-floor :
    (n : ℕ) (t : StreamTarget)
    → IsAllowed t
    → t.bitrate_bps ≤ 16000 + n
    → (rounds n t).bitrate_bps ≡ 16000
rounds-floor n t a h = omega (arith, rounds-bitrate n t a, (rounds-IsAllowed n t a).bitrate_low)
