-- ===== src/Protocol/Stats.antt =====
-- crates/protocol/src/stats.rs: queue and latency figures.
use teamview.Prelude.{ℕ, ◌+◌, ◌≡◌, min, Bool, ltb, arith}

pub record QueueStats : Type 0 where
  pub queued_packets : ℕ
  pub queued_media_ms : ℕ
  pub dropped_packets : ℕ
  pub dropped_frames : ℕ

unfoldable pub is_over_budget : QueueStats → ℕ → Bool
is_over_budget q max_media_ms = ltb max_media_ms q.queued_media_ms

pub record PipelineLatencyStats : Type 0 where
  pub capture_ms : ℕ
  pub encode_ms : ℕ
  pub server_route_ms : ℕ
  pub jitter_buffer_ms : ℕ
  pub decode_ms : ℕ
  pub render_ms : ℕ

-- `u16::saturating_add`
abbrev add16 : ℕ → ℕ → ℕ
add16 a b = min (a + b) 65535

unfoldable pub estimated_total_ms : PipelineLatencyStats → ℕ
estimated_total_ms s =
    add16
      (add16 (add16 (add16 (add16 s.capture_ms s.encode_ms) s.server_route_ms) s.jitter_buffer_ms)
        s.decode_ms)
      s.render_ms

-- The total latency is the sum of the six stages, held at 65535.
pub estimated_total_ms_lem :
    (s : PipelineLatencyStats)
    → estimated_total_ms s
      ≡ min
          (s.capture_ms + s.encode_ms + s.server_route_ms + s.jitter_buffer_ms + s.decode_ms
            + s.render_ms)
          65535
unfolding estimated_total_ms
estimated_total_ms_lem s = omega arith
