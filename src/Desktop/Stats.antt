-- ===== src/Desktop/Stats.antt =====
-- crates/desktop-client/src/stats.rs: what the client measures and reports.
pub mod Losses
use teamview.Prelude.{
  ℕ, ◌+◌, ◌-◌, ◌*◌, ◌/◌, ◌%◌, min, Bool, true, false, not, ◌&&◌, ◌||◌, Option, none, some, List,
  ◌==◌, ltb, leb, if◌then◌else◌, take, replicate, set, get_or,
}
use teamview.Prelude.Int.{ℤ, pos, negsuc, ◌+ℤ◌, ◌-ℤ◌}
use teamview.Prelude.Words.{saturating_add, saturating_mul, saturating_sub, max_of, cast}
use teamview.Protocol.Packet.{MediaPacket}
use teamview.Protocol.Frame.{div_ceil}
use teamview.Protocol.Control.Names.{RoomId, StreamId}
use teamview.Protocol.Control.Media.{ViewerStatsReport}
use teamview.Relay.Metrics.{sort_samples}
use teamview.Desktop.Decode.{wrapping_sub}

abbrev pub latency_sample_capacity : ℕ
latency_sample_capacity = 64

pub record ClientPipelineStats : Type 0 where
  pub capture_queue_len : ℕ
  pub encode_queue_len : ℕ
  pub network_queue_len : ℕ

unfoldable pub is_accumulating_latency : ClientPipelineStats → Bool
is_accumulating_latency s = ltb 1 s.capture_queue_len || ltb 1 s.encode_queue_len

pub record LatencySamples : Type 0 where
  pub values : List ℕ
  pub len : ℕ
  pub next : ℕ

unfoldable pub no_latency_samples : LatencySamples
no_latency_samples = record { values = replicate latency_sample_capacity 0; len = 0; next = 0 }

unfoldable pub push_latency : LatencySamples → ℕ → LatencySamples
push_latency s value = record {
  values = set s.values s.next value;
  next = (s.next + 1) % latency_sample_capacity;
  len = min (saturating_add 64 s.len 1) latency_sample_capacity;
}

-- The index is inside the samples, so the last argument of `get_or` is not used.
unfoldable pub latency_percentile : LatencySamples → ℕ → ℕ
latency_percentile s p =
    if s.len == 0
    then 0
    else get_or (sort_samples (take s.len s.values))
        (min (div_ceil (saturating_mul 32 (cast 32 (s.len - 1)) (min p 100)) 100) (s.len - 1)) 0

-- A `Duration` is its nanoseconds.
unfoldable pub duration_to_millis : ℕ → ℕ
duration_to_millis duration = min (duration / 1000000) (max_of 16)

unfoldable pub delta_to_millis : ℕ → ℕ → ℕ
delta_to_millis start_micros end_micros =
    min (saturating_sub end_micros start_micros / 1000) (max_of 16)

pub record BroadcasterTimingSnapshot : Type 0 where
  pub capture_ms_p50 : ℕ
  pub capture_ms_p95 : ℕ
  pub encode_ms_p50 : ℕ
  pub encode_ms_p95 : ℕ
  pub packetize_ms_p50 : ℕ
  pub packetize_ms_p95 : ℕ
  pub send_ms_p50 : ℕ
  pub send_ms_p95 : ℕ

pub record ClientBroadcasterStats : Type 0 where
  pub capture_samples_ms : LatencySamples
  pub encode_samples_ms : LatencySamples
  pub packetize_samples_ms : LatencySamples
  pub send_samples_ms : LatencySamples

unfoldable pub record_capture_duration : ClientBroadcasterStats → ℕ → ClientBroadcasterStats
unfolding push_latency
record_capture_duration s duration = record s {
  capture_samples_ms = push_latency s.capture_samples_ms (duration_to_millis duration);
}

unfoldable pub record_encode_duration : ClientBroadcasterStats → ℕ → ClientBroadcasterStats
unfolding push_latency
record_encode_duration s duration = record s {
  encode_samples_ms = push_latency s.encode_samples_ms (duration_to_millis duration);
}

unfoldable pub record_packetize_duration : ClientBroadcasterStats → ℕ → ClientBroadcasterStats
unfolding push_latency
record_packetize_duration s duration = record s {
  packetize_samples_ms = push_latency s.packetize_samples_ms (duration_to_millis duration);
}

unfoldable pub record_send_duration : ClientBroadcasterStats → ℕ → ClientBroadcasterStats
unfolding push_latency
record_send_duration s duration = record s {
  send_samples_ms = push_latency s.send_samples_ms (duration_to_millis duration);
}

unfoldable pub timing_snapshot : ClientBroadcasterStats → BroadcasterTimingSnapshot
timing_snapshot s = record {
  capture_ms_p50 = latency_percentile s.capture_samples_ms 50;
  capture_ms_p95 = latency_percentile s.capture_samples_ms 95;
  encode_ms_p50 = latency_percentile s.encode_samples_ms 50;
  encode_ms_p95 = latency_percentile s.encode_samples_ms 95;
  packetize_ms_p50 = latency_percentile s.packetize_samples_ms 50;
  packetize_ms_p95 = latency_percentile s.packetize_samples_ms 95;
  send_ms_p50 = latency_percentile s.send_samples_ms 50;
  send_ms_p95 = latency_percentile s.send_samples_ms 95;
}

pub record ClientMediaStats : Type 0 where
  pub received_packets : ℕ
  pub lost_packets : ℕ
  pub decoded_frames : ℕ
  pub rendered_frames : ℕ
  pub dropped_frames : ℕ
  pub jitter_buffer_ms : ℕ
  pub estimated_latency_ms : ℕ
  pub calibrated_latency_ms : ℕ
  pub sender_encode_ms : ℕ
  pub sender_send_ms : ℕ
  pub server_queue_ms : ℕ
  pub last_sequence_number : Option ℕ
  pub reassembly_samples_ms : LatencySamples
  pub sender_encode_samples_ms : LatencySamples
  pub sender_send_samples_ms : LatencySamples
  pub server_queue_samples_ms : LatencySamples
  pub decode_samples_ms : LatencySamples
  pub render_samples_ms : LatencySamples
  pub first_render_time_micros : ℕ
  pub last_render_time_micros : ℕ

unfoldable pub no_media_stats : ClientMediaStats
no_media_stats = record {
  received_packets = 0;
  lost_packets = 0;
  decoded_frames = 0;
  rendered_frames = 0;
  dropped_frames = 0;
  jitter_buffer_ms = 0;
  estimated_latency_ms = 0;
  calibrated_latency_ms = 0;
  sender_encode_ms = 0;
  sender_send_ms = 0;
  server_queue_ms = 0;
  last_sequence_number = none;
  reassembly_samples_ms = no_latency_samples;
  sender_encode_samples_ms = no_latency_samples;
  sender_send_samples_ms = no_latency_samples;
  server_queue_samples_ms = no_latency_samples;
  decode_samples_ms = no_latency_samples;
  render_samples_ms = no_latency_samples;
  first_render_time_micros = 0;
  last_render_time_micros = 0;
}

-- The packet's number against the last one: what is between them is lost.
unfoldable pub record_sequence : ClientMediaStats → ℕ → ClientMediaStats
record_sequence s sequence_number = elim s.last_sequence_number [
  | none ↦ record s { last_sequence_number = some sequence_number }
  | some previous ↦
      let distance = wrapping_sub sequence_number previous in
      if ltb 0 distance && ltb distance (max_of 32 / 2)
      then record s {
        lost_packets = saturating_add 64 s.lost_packets (distance - 1);
        last_sequence_number = some sequence_number;
      }
      else s
]

unfoldable pub record_packet : ClientMediaStats → MediaPacket → ClientMediaStats
unfolding record_sequence
record_packet s packet =
    record_sequence (record s { received_packets = saturating_add 64 s.received_packets 1 })
      packet.header.sequence_number

unfoldable pub record_decoded_frame : ClientMediaStats → ClientMediaStats
record_decoded_frame s = record s { decoded_frames = saturating_add 64 s.decoded_frames 1 }

unfoldable pub record_reassembly_millis : ClientMediaStats → ℕ → ClientMediaStats
record_reassembly_millis s reassembly_ms = record s {
  reassembly_samples_ms = push_latency s.reassembly_samples_ms reassembly_ms;
}

unfoldable pub record_decode_duration : ClientMediaStats → ℕ → ClientMediaStats
record_decode_duration s duration = record s {
  decode_samples_ms = push_latency s.decode_samples_ms (duration_to_millis duration);
}

unfoldable pub record_render_duration : ClientMediaStats → ℕ → ℕ → ClientMediaStats
record_render_duration s duration render_time_micros = record s {
  rendered_frames = saturating_add 64 s.rendered_frames 1;
  render_samples_ms = push_latency s.render_samples_ms (duration_to_millis duration);
  first_render_time_micros =
      if s.first_render_time_micros == 0 then render_time_micros else s.first_render_time_micros;
  last_render_time_micros = render_time_micros;
}

unfoldable pub record_dropped_frame : ClientMediaStats → ClientMediaStats
record_dropped_frame s = record s { dropped_frames = saturating_add 64 s.dropped_frames 1 }

unfoldable pub record_dropped_frames : ClientMediaStats → ℕ → ClientMediaStats
record_dropped_frames s dropped_frames = record s {
  dropped_frames = saturating_add 64 s.dropped_frames dropped_frames;
}

unfoldable pub record_estimated_latency : ClientMediaStats → ℕ → ℕ → ClientMediaStats
record_estimated_latency s sender_capture_time_micros receive_time_micros =
    if sender_capture_time_micros == 0 || ltb receive_time_micros sender_capture_time_micros
    then s
    else record s {
      estimated_latency_ms =
          min (saturating_sub receive_time_micros sender_capture_time_micros / 1000) (max_of 16);
    }

-- The 128-bit difference of the two times on the relay's clock; nothing is recorded below zero.
unfoldable pub record_calibrated_latency : ClientMediaStats → ℕ → ℤ → ℕ → ℤ → ClientMediaStats
record_calibrated_latency s captured sender_offset received receiver_offset =
    if captured == 0
    then s
    else elim ((pos received +ℤ receiver_offset) -ℤ (pos captured +ℤ sender_offset)) [
      | negsuc n ↦ s
      | pos n ↦ record s { calibrated_latency_ms = min (n / 1000) (max_of 16) }
    ]

unfoldable pub record_sender_encode : ClientMediaStats → ℕ → ℕ → ClientMediaStats
record_sender_encode s captured encode_done =
    if leb captured encode_done
    then (let encode_ms = delta_to_millis captured encode_done in
        record s {
          sender_encode_ms = encode_ms;
          sender_encode_samples_ms = push_latency s.sender_encode_samples_ms encode_ms;
        })
    else s

unfoldable pub record_sender_send : ClientMediaStats → ℕ → ℕ → ClientMediaStats
record_sender_send s captured sent =
    if leb captured sent
    then (let send_ms = delta_to_millis captured sent in
        record s {
          sender_send_ms = send_ms;
          sender_send_samples_ms = push_latency s.sender_send_samples_ms send_ms;
        })
    else s

unfoldable pub record_sender_timestamps : ClientMediaStats → ℕ → ℕ → ℕ → ClientMediaStats
unfolding record_sender_encode record_sender_send
record_sender_timestamps s captured encode_done sent =
    if captured == 0
    then s
    else record_sender_send (record_sender_encode s captured encode_done) captured sent

unfoldable pub sender_encode_ms_p50 : ClientMediaStats → ℕ
sender_encode_ms_p50 s = latency_percentile s.sender_encode_samples_ms 50

unfoldable pub sender_encode_ms_p95 : ClientMediaStats → ℕ
sender_encode_ms_p95 s = latency_percentile s.sender_encode_samples_ms 95

unfoldable pub sender_send_ms_p50 : ClientMediaStats → ℕ
sender_send_ms_p50 s = latency_percentile s.sender_send_samples_ms 50

unfoldable pub sender_send_ms_p95 : ClientMediaStats → ℕ
sender_send_ms_p95 s = latency_percentile s.sender_send_samples_ms 95

unfoldable pub record_server_queue_latency : ClientMediaStats → ℕ → ℕ → ClientMediaStats
record_server_queue_latency s received sent =
    if received == 0 || ltb sent received
    then s
    else (let latency_ms = min (saturating_sub sent received / 1000) (max_of 16) in
        record s {
          server_queue_ms = latency_ms;
          server_queue_samples_ms = push_latency s.server_queue_samples_ms latency_ms;
        })

unfoldable pub server_queue_ms_p50 : ClientMediaStats → ℕ
server_queue_ms_p50 s = latency_percentile s.server_queue_samples_ms 50

unfoldable pub server_queue_ms_p95 : ClientMediaStats → ℕ
server_queue_ms_p95 s = latency_percentile s.server_queue_samples_ms 95

-- The division is not by zero: the last rendering is later than the first.
unfoldable pub render_fps : ClientMediaStats → ℕ
render_fps s =
    if ltb s.rendered_frames 2 || leb s.last_render_time_micros s.first_render_time_micros
    then 0
    else (let elapsed = saturating_sub s.last_render_time_micros s.first_render_time_micros in
        min (saturating_mul 64 (saturating_sub s.rendered_frames 1) 1000000 / elapsed) (max_of 16))

unfoldable pub to_viewer_report : ClientMediaStats → RoomId → StreamId → ViewerStatsReport
unfolding render_fps
to_viewer_report s room_id stream_id = record {
  room_id = room_id;
  stream_id = stream_id;
  received_packets = s.received_packets;
  lost_packets = s.lost_packets;
  decoded_frames = s.decoded_frames;
  dropped_frames = s.dropped_frames;
  jitter_buffer_ms = s.jitter_buffer_ms;
  estimated_latency_ms = s.estimated_latency_ms;
  calibrated_latency_ms = s.calibrated_latency_ms;
  reassembly_ms_p50 = latency_percentile s.reassembly_samples_ms 50;
  reassembly_ms_p95 = latency_percentile s.reassembly_samples_ms 95;
  decode_ms_p50 = latency_percentile s.decode_samples_ms 50;
  decode_ms_p95 = latency_percentile s.decode_samples_ms 95;
  render_ms_p50 = latency_percentile s.render_samples_ms 50;
  render_ms_p95 = latency_percentile s.render_samples_ms 95;
  render_fps = render_fps s;
}
