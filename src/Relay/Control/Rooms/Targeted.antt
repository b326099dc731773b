-- ===== src/Relay/Control/Rooms/Targeted.antt =====
-- How a stream gets its target in crates/relay-server/src/control.rs: when it is published, by
-- `SetStreamConfig`, and by an update.
use teamview.Prelude.{refl, arith, inl}
use teamview.Prelude.BtreeMap
use teamview.Prelude.BtreeMap.{Map}
use teamview.Protocol.Control.Names.{UserId}
use teamview.Protocol.Control.Rooms.{PublishStream}
use teamview.Protocol.Control.Media.{StreamConfig}
use teamview.Relay.Room.{PublishedStream}
use teamview.Relay.Control.Targets.{target_of}
use teamview.Relay.Control.Targets.Bounds.{IsTargeted, clamp_target_resolution-IsPicture}
use teamview.Relay.Control.Streams.{fresh_stream, allowed_config, with_config}

-- Every stream of a room has an allowed target.
abbrev pub AreTargeted : Map PublishedStream → Type 0
AreTargeted streams = BtreeMap.Forall (λ _ stream. IsTargeted stream) streams

pub fresh_stream-IsTargeted :
    (publish : PublishStream) (user_id : UserId) → IsTargeted (fresh_stream publish user_id)
unfolding fresh_stream target_of
fresh_stream-IsTargeted publish user_id = record {
  allowed = record {
    bitrate_low = omega arith;
    bitrate_high = omega arith;
    frames_low = omega arith;
    frames_high = omega arith;
    resolution = record { picture = inl (refl, refl) };
  };
  configured = λ c e. ground (arith, e);
}

-- A configuration changes the frame rate and the resolution, and leaves the bitrate.
pub with_config-IsTargeted :
    (config : StreamConfig) (stream : PublishedStream)
    → IsTargeted stream
    → IsTargeted (with_config (allowed_config config) stream)
unfolding with_config allowed_config target_of
with_config-IsTargeted config stream t = record {
  allowed = record {
    bitrate_low = t.allowed.bitrate_low;
    bitrate_high = t.allowed.bitrate_high;
    frames_low = omega arith;
    frames_high = omega arith;
    resolution = clamp_target_resolution-IsPicture config.width config.height;
  };
  configured = λ c e. ground (arith, e);
}
