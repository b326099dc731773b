-- ===== src/Relay/Metrics.antt =====
-- crates/relay-server/src/metrics.rs: counters of one forwarded stream and its routing times.
pub mod Samples
use teamview.Prelude.{
  ℕ, ◌+◌, ◌-◌, ◌/◌, ◌%◌, min, List, [], ◌∷◌, ◌==◌, leb, take, replicate, set, get_or, if◌then◌else◌,
}
use teamview.Prelude.Words.{saturating_add, saturating_mul, saturating_sub, max_of, cast}
use teamview.Protocol.Control.Names.{RoomId, StreamId}
use teamview.Protocol.Control.Media.{StreamMetricsSnapshot}
use teamview.Protocol.Frame.{div_ceil}

abbrev pub route_sample_capacity : ℕ
route_sample_capacity = 64

-- A ring of the last samples: `next` is where the next one goes.
pub record RouteLatencySamples : Type 0 where
  pub values : List ℕ
  pub len : ℕ
  pub next : ℕ

unfoldable pub no_samples : RouteLatencySamples
no_samples = record { values = replicate route_sample_capacity 0; len = 0; next = 0 }

unfoldable pub push : RouteLatencySamples → ℕ → RouteLatencySamples
push s value = record {
  values = set s.values s.next value;
  len = min (saturating_add 64 s.len 1) route_sample_capacity;
  next = (s.next + 1) % route_sample_capacity;
}

unfoldable pub insert_sample : ℕ → List ℕ → List ℕ
insert_sample x [] = x ∷ []
insert_sample x (y ∷ ys) = let rest = insert_sample x ys in if leb x y then x ∷ y ∷ ys else y ∷ rest

-- `sort_unstable` of numbers.
unfoldable pub sort_samples : List ℕ → List ℕ
unfolding insert_sample
sort_samples [] = []
sort_samples (x ∷ xs) = insert_sample x (sort_samples xs)

unfoldable pub percentile_index : ℕ → ℕ → ℕ
percentile_index len percentile =
    min (div_ceil (saturating_mul 32 (cast 32 (len - 1)) (min percentile 100)) 100) (len - 1)

-- The index is inside the samples, so the read never panics and the last argument is not used.
unfoldable pub percentile : RouteLatencySamples → ℕ → ℕ
unfolding sort_samples percentile_index
percentile s p =
    if s.len == 0
    then 0
    else get_or (sort_samples (take s.len s.values)) (percentile_index s.len p) 0

pub record StreamForwardingMetrics : Type 0 where
  pub ingress_packets : ℕ
  pub ingress_bytes : ℕ
  pub egress_queued_packets : ℕ
  pub egress_dropped_packets : ℕ
  pub last_ingress_time_micros : ℕ
  pub server_route_samples_ms : RouteLatencySamples

-- `Default`
unfoldable pub no_metrics : StreamForwardingMetrics
unfolding no_samples
no_metrics = record {
  ingress_packets = 0;
  ingress_bytes = 0;
  egress_queued_packets = 0;
  egress_dropped_packets = 0;
  last_ingress_time_micros = 0;
  server_route_samples_ms = no_samples;
}

unfoldable pub record_forwarding :
    StreamForwardingMetrics → ℕ → ℕ → ℕ → ℕ → ℕ → StreamForwardingMetrics
record_forwarding m ingress_bytes queued dropped received_at_micros server_route_ms = record {
  ingress_packets = saturating_add 64 m.ingress_packets 1;
  ingress_bytes = saturating_add 64 m.ingress_bytes ingress_bytes;
  egress_queued_packets = saturating_add 64 m.egress_queued_packets queued;
  egress_dropped_packets = saturating_add 64 m.egress_dropped_packets dropped;
  last_ingress_time_micros = received_at_micros;
  server_route_samples_ms = push m.server_route_samples_ms server_route_ms;
}

unfoldable pub snapshot : StreamForwardingMetrics → RoomId → StreamId → ℕ → StreamMetricsSnapshot
snapshot m room_id stream_id subscriber_count = record {
  room_id = room_id;
  stream_id = stream_id;
  ingress_packets = m.ingress_packets;
  ingress_bytes = m.ingress_bytes;
  egress_queued_packets = m.egress_queued_packets;
  egress_dropped_packets = m.egress_dropped_packets;
  egress_queue_packets = 0;
  egress_queue_media_ms = 0;
  subscriber_count = subscriber_count;
  last_ingress_time_micros = m.last_ingress_time_micros;
  server_route_ms_p50 = percentile m.server_route_samples_ms 50;
  server_route_ms_p95 = percentile m.server_route_samples_ms 95;
}

unfoldable pub micros_delta_to_millis : ℕ → ℕ → ℕ
micros_delta_to_millis start_micros end_micros =
    min (saturating_sub end_micros start_micros / 1000) (max_of 16)
