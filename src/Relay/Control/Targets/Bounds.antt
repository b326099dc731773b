-- ===== src/Relay/Control/Targets/Bounds.antt =====
-- The range of every target in crates/relay-server/src/control.rs.
use teamview.Prelude.{
  ℕ, ◌*◌, ◌/◌, ◌≤◌, max, min, ◌≡◌, ◌⊎◌, inl, inr, refl, false, some, Option-cases, ◌&&◌, ◌||◌, ◌==◌,
  if◌then◌else◌, arith,
}
use teamview.Prelude.Words.{cast}
use teamview.Protocol.Control.Media.{StreamConfig}
use teamview.Relay.Room.{PublishedStream}
use teamview.Relay.Control.Targets.{
  StreamTarget, with_target, target_of, clamp_target_resolution, update_config, reduce_resolution,
  reduced_width, reduced_height,
}

-- No resolution yet, or one that the relay allows.
pub record IsPicture (width height : ℕ) : Type 0 where
  pub picture :
      ((width ≡ 0) × (height ≡ 0))
      ⊎ ((320 ≤ width) × (width ≤ 7680) × (180 ≤ height) × (height ≤ 4320))

pub record IsAllowed (t : StreamTarget) : Type 0 where
  pub bitrate_low : 16000 ≤ t.bitrate_bps
  pub bitrate_high : t.bitrate_bps ≤ 16000000
  pub frames_low : 5 ≤ t.frames_per_second
  pub frames_high : t.frames_per_second ≤ 120
  pub resolution : IsPicture t.width t.height

pub clamp_target_resolution-IsPicture :
    (width height : ℕ)
    → IsPicture (clamp_target_resolution width height).0 (clamp_target_resolution width height).1
unfolding clamp_target_resolution
clamp_target_resolution-IsPicture width height = record { picture = ground arith }

-- The target of a stream is allowed, and its configuration has the target's frame rate and resolution.
pub record IsTargeted (stream : PublishedStream) : Type 0 where
  pub allowed : IsAllowed (target_of stream)
  pub configured :
      (c : StreamConfig)
      → stream.config ≡ some c
      → (c.frames_per_second ≡ stream.target_frames_per_second)
        × (c.width ≡ stream.target_width)
        × (c.height ≡ stream.target_height)

-- The target that an update gives is in range.
with_target-IsAllowed :
    (bitrate_bps frames_per_second width height : ℕ) (stream : PublishedStream)
    → IsAllowed (target_of (with_target bitrate_bps frames_per_second width height stream))
unfolding with_target target_of
with_target-IsAllowed bitrate_bps frames_per_second width height stream = record {
  bitrate_low = omega arith;
  bitrate_high = omega arith;
  frames_low = omega arith;
  frames_high = omega arith;
  resolution = clamp_target_resolution-IsPicture width height;
}

pub with_target-IsTargeted :
    (bitrate_bps frames_per_second width height : ℕ) (stream : PublishedStream)
    → IsTargeted (with_target bitrate_bps frames_per_second width height stream)
unfolding with_target update_config
with_target-IsTargeted bitrate_bps frames_per_second width height stream = record {
  allowed = with_target-IsAllowed bitrate_bps frames_per_second width height stream;
  configured = λ c e. elim (Option-cases stream.config) [
    | inl z ↦ ground (arith, e, z)
    | inr (old, z) ↦ ground (arith, e, z)
  ];
}

-- The last step of `reduce_resolution`, for any reduced width and height.
abbrev chosen : ℕ → ℕ → ℕ → ℕ → ℕ → ℕ × ℕ
chosen width height new_width new_height x =
    if new_height == height && new_width == width
    then (width, height)
    else (if new_height == height
        then clamp_target_resolution (min (max x 320) width) new_height
        else clamp_target_resolution new_width new_height)

chosen-bounds :
    (width height new_width new_height x : ℕ)
    → 320 ≤ width
    → width ≤ 7680
    → 180 ≤ height
    → height ≤ 4320
    → 320 ≤ new_width
    → new_width ≤ width
    → 180 ≤ new_height
    → new_height ≤ height
    → (IsPicture
        (chosen width height new_width new_height x).0
        (chosen width height new_width new_height x).1)
      × ((chosen width height new_width new_height x).0 ≤ width)
      × ((chosen width height new_width new_height x).1 ≤ height)
unfolding clamp_target_resolution
chosen-bounds width height new_width new_height x a b c d e f g h = (
  record { picture = inr (ground arith, ground arith, ground arith, ground arith) },
  ground arith,
  ground arith,
)

atleast : (x lo top : ℕ) → lo ≤ top → lo ≤ min (max x lo) top
atleast x lo top h = omega arith

atmost : (x lo top : ℕ) → min (max x lo) top ≤ top
atmost x lo top = omega arith

-- A smaller picture is allowed if the picture was, and no larger in either direction.
pub reduce_resolution-bounds :
    (width height : ℕ)
    → IsPicture width height
    → (IsPicture (reduce_resolution width height).0 (reduce_resolution width height).1)
      × ((reduce_resolution width height).0 ≤ width)
      × ((reduce_resolution width height).1 ≤ height)
unfolding reduced_width reduced_height reduce_resolution
reduce_resolution-bounds width height p = elim p.picture [
  | inl (z, z') ↦
      rw (reduce_resolution, z, z')
        (record { picture = inl (refl, refl) }, omega arith, omega arith)
  | inr (a, b, c, d) ↦
      let large : (width == 0 || height == 0) ≡ false = ground arith in
      let w = reduced_width width in
      let h = reduced_height w width height in
      let y = cast 32 (w * height / max width 1) in
      rw (reduce_resolution, large)
        (chosen-bounds width height w h (cast 32 (h * width / max height 1)) a b c d (omega arith)
          (omega arith) (atleast y 180 height c) (atmost y 180 height))
]
