-- ===== src/Relay/Tests/Samples.antt =====
-- Instances of the theorems about crates/relay-server/src/metrics.rs.
use teamview.Prelude.{◌≤◌, ◌<◌, length, take, arith}
use teamview.Relay.Metrics.{
  RouteLatencySamples, no_samples, push, sort_samples, percentile_index, percentile,
}
use teamview.Relay.Metrics.Samples.{no_samples-IsRing, push-IsRing, percentile_mono}

abbrev two_samples : RouteLatencySamples
two_samples = push (push no_samples 9) 5

percentile_mono_example :
    (percentile two_samples 50 ≤ percentile two_samples 95)
    × (0 < two_samples.len
        → percentile_index two_samples.len 95
          < length (sort_samples (take two_samples.len two_samples.values)))
percentile_mono_example =
    percentile_mono two_samples 50 95
      (push-IsRing (push no_samples 9) 5 (push-IsRing no_samples 9 no_samples-IsRing)) (omega arith)
