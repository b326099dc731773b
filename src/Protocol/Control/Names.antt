-- ===== src/Protocol/Control/Names.antt =====
-- crates/protocol/src/control.rs: identifiers and the small enums of the control protocol.
use teamview.Prelude.{ℕ, Bool, true, false}

abbrev pub RoomId : Type 0
RoomId = ℕ

abbrev pub UserId : Type 0
UserId = ℕ

abbrev pub StreamId : Type 0
StreamId = ℕ

abbrev pub RequestId : Type 0
RequestId = ℕ

pub data MediaKind : Type 0 where
  screen voice probe : MediaKind

pub data KeyframeReason : Type 0 where
  new_subscriber packet_loss decoder_recovery stream_config_changed : KeyframeReason

pub data PointerButton : Type 0 where
  left right middle x1 x2 : PointerButton

-- `media_kind == MediaKind::Screen`
unfoldable pub is_screen : MediaKind → Bool
is_screen MediaKind.screen = true
is_screen MediaKind.voice = false
is_screen MediaKind.probe = false

-- `media_kind == MediaKind::Voice`
unfoldable pub is_voice : MediaKind → Bool
is_voice MediaKind.screen = false
is_voice MediaKind.voice = true
is_voice MediaKind.probe = false
