-- ===== src/Relay/Control/Targets.antt =====
-- crates/relay-server/src/control.rs: the target bitrate, frame rate and resolution of a stream.
pub mod Bounds
use teamview.Prelude.{
  ℕ, ◌+◌, ◌-◌, ◌*◌, ◌/◌, max, min, Bool, true, false, not, ◌&&◌, ◌||◌, Option, none, some, List, [],
  ◌∷◌, ◌==◌, ltb, if◌then◌else◌,
}
use teamview.Prelude.BtreeMap
use teamview.Prelude.BtreeMap.{Map}
use teamview.Prelude.Words.{clamp, cast, saturating_mul}
use teamview.Protocol.Control.Names.{StreamId}
use teamview.Protocol.Control.Media.{StreamConfig, ViewerStatsReport}
use teamview.Relay.Room.{Room, PublishedStream}
use teamview.Relay.Control.State.{ControlState, published_stream}

abbrev pub default_target_bitrate_bps : ℕ
default_target_bitrate_bps = 4000000

abbrev pub default_target_frames_per_second : ℕ
default_target_frames_per_second = 30

abbrev pub min_target_bitrate_bps : ℕ
min_target_bitrate_bps = 16000

abbrev pub max_target_bitrate_bps : ℕ
max_target_bitrate_bps = 16000000

abbrev pub min_target_frames_per_second : ℕ
min_target_frames_per_second = 5

abbrev pub max_target_frames_per_second : ℕ
max_target_frames_per_second = 120

abbrev pub degraded_bitrate_percent : ℕ
degraded_bitrate_percent = 80

abbrev pub min_target_width : ℕ
min_target_width = 320

abbrev pub min_target_height : ℕ
min_target_height = 180

abbrev pub max_target_width : ℕ
max_target_width = 7680

abbrev pub max_target_height : ℕ
max_target_height = 4320

pub record StreamTarget : Type 0 where
  pub bitrate_bps : ℕ
  pub frames_per_second : ℕ
  pub width : ℕ
  pub height : ℕ

unfoldable pub clamp_target_resolution : ℕ → ℕ → ℕ × ℕ
clamp_target_resolution width height = if width == 0 || height == 0 then (0, 0) else (
  clamp width min_target_width max_target_width,
  clamp height min_target_height max_target_height,
)

-- The width of a reduced picture, and the height that keeps the ratio.
unfoldable pub reduced_width : ℕ → ℕ
reduced_width width =
    min (max (saturating_mul 32 width degraded_bitrate_percent / 100) min_target_width) width

unfoldable pub reduced_height : ℕ → ℕ → ℕ → ℕ
reduced_height new_width width height =
    min (max (cast 32 (new_width * height / max width 1)) min_target_height) height

unfoldable pub reduce_resolution : ℕ → ℕ → ℕ × ℕ
unfolding reduced_width reduced_height clamp_target_resolution
reduce_resolution width height =
    if width == 0 || height == 0
    then (width, height)
    else (let new_width = reduced_width width in
        let new_height = reduced_height new_width width height in
        if new_height == height && new_width == width
        then (width, height)
        else (if new_height == height
            then clamp_target_resolution
                (min (max (cast 32 (new_height * width / max height 1)) min_target_width) width)
                new_height
            else clamp_target_resolution new_width new_height))

unfoldable pub target_of : PublishedStream → StreamTarget
target_of stream = record {
  bitrate_bps = stream.target_bitrate_bps;
  frames_per_second = stream.target_frames_per_second;
  width = stream.target_width;
  height = stream.target_height;
}

unfoldable pub stream_target : ControlState → StreamId → StreamTarget
unfolding target_of
stream_target s stream_id = elim (published_stream s stream_id) [
  | some stream ↦ target_of stream
  | none ↦ record {
    bitrate_bps = default_target_bitrate_bps;
    frames_per_second = default_target_frames_per_second;
    width = 0;
    height = 0;
  }
]

-- `if let Some(config) = &mut stream.config { … }`
unfoldable pub update_config : Option StreamConfig → ℕ → ℕ → ℕ → Option StreamConfig
update_config none frames_per_second width height = none
update_config (some c) frames_per_second width height =
    some (record c { frames_per_second = frames_per_second; width = width; height = height })

-- The published stream with a new target.
unfoldable pub with_target : ℕ → ℕ → ℕ → ℕ → PublishedStream → PublishedStream
unfolding clamp_target_resolution update_config
with_target bitrate_bps frames_per_second width height stream =
    let fps = clamp frames_per_second min_target_frames_per_second max_target_frames_per_second in
    let (w, h) = clamp_target_resolution width height in
    record stream {
      target_bitrate_bps = clamp bitrate_bps min_target_bitrate_bps max_target_bitrate_bps;
      target_frames_per_second = fps;
      target_width = w;
      target_height = h;
      config = update_config stream.config fps w h;
    }

-- The first room that publishes the stream has it replaced.
unfoldable pub update_first : StreamId → (PublishedStream → PublishedStream) → Map Room → Map Room
update_first stream_id f [] = []
update_first stream_id f ((room_id, r) ∷ rs) =
    let rest = update_first stream_id f rs in
    elim (BtreeMap.lookup stream_id r.published_streams) [
      | some stream ↦
          (
            room_id,
            record r {
              published_streams = BtreeMap.insert stream_id (f stream) r.published_streams;
            },
          )
          ∷ rs
      | none ↦ (room_id, r) ∷ rest
    ]

unfoldable pub update_stream_target : ControlState → StreamId → ℕ → ℕ → ℕ → ℕ → ControlState
unfolding update_first
update_stream_target s stream_id bitrate_bps frames_per_second width height = record s {
  rooms = update_first stream_id (with_target bitrate_bps frames_per_second width height) s.rooms;
}

unfoldable pub viewer_latency_ms : ViewerStatsReport → ℕ
viewer_latency_ms report =
    if ltb 0 report.calibrated_latency_ms
    then report.calibrated_latency_ms
    else report.estimated_latency_ms

unfoldable pub viewer_is_degraded : ViewerStatsReport → Bool
unfolding viewer_latency_ms
viewer_is_degraded report =
    ltb 0 report.lost_packets
    || (ltb 0 report.dropped_frames
        || (ltb 120 report.jitter_buffer_ms
            || (ltb 200 (viewer_latency_ms report)
                || (ltb 80 report.reassembly_ms_p95
                    || (ltb 40 report.decode_ms_p95
                        || (ltb 40 report.render_ms_p95
                            || (ltb 0 report.render_fps && ltb report.render_fps 15)))))))
