-- ===== src/Relay/Config.antt =====
-- crates/relay-server/src/config.rs, and the limits of crates/relay-server/src/control.rs.
use teamview.Prelude.{ℕ, max, Option, none}
use teamview.Prelude.Text.{Text}
use teamview.Protocol.Packet.{default_datagram_payload_target}

pub record ControlLimits : Type 0 where
  pub max_rooms : ℕ
  pub max_participants_per_room : ℕ
  pub max_streams_per_room : ℕ

-- `ControlLimits::default`
unfoldable pub default_limits : ControlLimits
default_limits = record {
  max_rooms = 128;
  max_participants_per_room = 64;
  max_streams_per_room = 8;
}

unfoldable pub sanitized : ControlLimits → ControlLimits
sanitized l = record {
  max_rooms = max l.max_rooms 1;
  max_participants_per_room = max l.max_participants_per_room 1;
  max_streams_per_room = max l.max_streams_per_room 1;
}

pub record ServerConfig : Type 0 where
  pub listen_addr : Text
  pub max_datagram_payload : ℕ
  pub viewer_queue_budget_ms : ℕ
  pub access_token : Option Text
  pub control_limits : ControlLimits

unfoldable pub new_config : Text → ServerConfig
unfolding default_limits
new_config listen_addr = record {
  listen_addr = listen_addr;
  max_datagram_payload = default_datagram_payload_target;
  viewer_queue_budget_ms = 100;
  access_token = none;
  control_limits = default_limits;
}

unfoldable pub with_access_token : ServerConfig → Option Text → ServerConfig
with_access_token c access_token = record c { access_token = access_token }

unfoldable pub with_max_datagram_payload : ServerConfig → ℕ → ServerConfig
with_max_datagram_payload c n = record c { max_datagram_payload = max n 1 }

unfoldable pub with_control_limits : ServerConfig → ControlLimits → ServerConfig
unfolding sanitized
with_control_limits c limits = record c { control_limits = sanitized limits }
